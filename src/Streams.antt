-- ===== src/Streams.antt =====
-- The transform streams lib/line-ends.js and lib/size-limiter.js. A stream is a state and a function
-- for a chunk of bytes, which gives the next state and the bytes that it pushes.
pub mod LineEnds
pub mod SizeLimiter
mod Tests
