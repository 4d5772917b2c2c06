-- ===== src/MailQueue/Texts.antt =====
-- lib/mail-queue.js: the texts that `push` computes, the domain of an address and the sequence number of a
-- delivery, a hexadecimal number of three digits or more.
use Prim.Native.Char.{Char, code}
use Prim.Native.String.append
use Prim.Native.String.{String, [], ◌∷◌, ◌++◌}
use zone_mta.Prelude.{
  ℕ, zero, suc, ◌+◌, ◌*◌, ◌-◌, ◌/◌, ◌%◌, ◌<◌, ◌≡◌, refl, ap, ◌∙◌, inl, inr, Bool, true, false,
  arith, if◌then◌else◌, ltb, ◌==◌, ◌||◌, Bool-cases,
}

-- What follows the last `@`, the whole text where there is none: `best` is the answer so far.
unfoldable pub after_at : String → String → String
after_at [] best = best
after_at (c ∷ s) best = after_at s (if code c == 64 then s else best)

-- `text.split('@').pop()`, and `text.substr(text.lastIndexOf('@') + 1)`
unfoldable pub domain_part : String → String
unfolding after_at
domain_part text = after_at text text

-- `text.replace(/[[\]]/g, '')`
unfoldable pub without_brackets : String → String
without_brackets [] = []
without_brackets (c ∷ s) =
    let rest = without_brackets s in if (code c == 91) || (code c == 93) then rest else c ∷ rest

unfoldable pub hex_digit : ℕ → String
hex_digit zero = "0"
hex_digit (suc zero) = "1"
hex_digit (suc (suc zero)) = "2"
hex_digit (suc (suc (suc zero))) = "3"
hex_digit (suc (suc (suc (suc zero)))) = "4"
hex_digit (suc (suc (suc (suc (suc zero))))) = "5"
hex_digit (suc (suc (suc (suc (suc (suc zero)))))) = "6"
hex_digit (suc (suc (suc (suc (suc (suc (suc zero))))))) = "7"
hex_digit (suc (suc (suc (suc (suc (suc (suc (suc zero)))))))) = "8"
hex_digit (suc (suc (suc (suc (suc (suc (suc (suc (suc zero))))))))) = "9"
hex_digit (suc (suc (suc (suc (suc (suc (suc (suc (suc (suc zero)))))))))) = "a"
hex_digit (suc (suc (suc (suc (suc (suc (suc (suc (suc (suc (suc zero))))))))))) = "b"
hex_digit (suc (suc (suc (suc (suc (suc (suc (suc (suc (suc (suc (suc zero)))))))))))) = "c"
hex_digit (suc (suc (suc (suc (suc (suc (suc (suc (suc (suc (suc (suc (suc zero))))))))))))) = "d"
hex_digit (suc (suc (suc (suc (suc (suc (suc (suc (suc (suc (suc (suc (suc (suc zero)))))))))))))) =
    "e"
hex_digit _ = "f"

-- `n.toString(16)`; fuel above `n` is enough.
unfoldable pub hex : ℕ → ℕ → String
unfolding hex_digit
hex zero n = ""
hex (suc fuel) n =
    let rest = hex fuel (n / 16) in if ltb n 16 then hex_digit n else rest ++ hex_digit (n % 16)

unfoldable pub seq_text : ℕ → String
unfolding hex
seq_text seq =
    (if ltb seq 0x100 then "0" else "") ++ (if ltb seq 0x10 then "0" else "") ++ hex (suc seq) seq

unfoldable pub digit_value : Char → ℕ
digit_value c = if ltb (code c) 58 then code c - 48 else code c - 87

-- The number that hexadecimal digits mean, after the number `a`.
unfoldable pub unhex : ℕ → String → ℕ
unfolding digit_value
unhex a [] = a
unhex a (c ∷ s) = unhex (16 * a + digit_value c) s

unhex-append : (a : ℕ) (s t : String) → unhex a (s ++ t) ≡ unhex (unhex a s) t
unfolding unhex
unhex-append a [] t = ap (unhex a) (append.nil t)
unhex-append a (c ∷ s) t =
    ap (unhex a) (append.cons c s t) ∙ unhex-append (16 * a + digit_value c) s t

unhex-hex_digit : (a d : ℕ) → d < 16 → unhex a (hex_digit d) ≡ 16 * a + d
unfolding unhex hex_digit
unhex-hex_digit a zero h = refl
unhex-hex_digit a (suc zero) h = refl
unhex-hex_digit a (suc (suc zero)) h = refl
unhex-hex_digit a (suc (suc (suc zero))) h = refl
unhex-hex_digit a (suc (suc (suc (suc zero)))) h = refl
unhex-hex_digit a (suc (suc (suc (suc (suc zero))))) h = refl
unhex-hex_digit a (suc (suc (suc (suc (suc (suc zero)))))) h = refl
unhex-hex_digit a (suc (suc (suc (suc (suc (suc (suc zero))))))) h = refl
unhex-hex_digit a (suc (suc (suc (suc (suc (suc (suc (suc zero)))))))) h = refl
unhex-hex_digit a (suc (suc (suc (suc (suc (suc (suc (suc (suc zero))))))))) h = refl
unhex-hex_digit a (suc (suc (suc (suc (suc (suc (suc (suc (suc (suc zero)))))))))) h = refl
unhex-hex_digit a (suc (suc (suc (suc (suc (suc (suc (suc (suc (suc (suc zero))))))))))) h = refl
unhex-hex_digit a (suc (suc (suc (suc (suc (suc (suc (suc (suc (suc (suc (suc zero)))))))))))) h =
    refl
unhex-hex_digit a (suc (suc (suc (suc (suc (suc (suc (suc (suc (suc (suc (suc (suc zero)))))))))))))
      h =
    refl
unhex-hex_digit a
      (suc (suc (suc (suc (suc (suc (suc (suc (suc (suc (suc (suc (suc (suc zero)))))))))))))) h =
    refl
unhex-hex_digit a
      (suc (suc (suc (suc (suc (suc (suc (suc (suc (suc (suc (suc (suc (suc (suc d)))))))))))))))
      h =
    omega (arith, h)

unhex-hex : (fuel n : ℕ) → n < fuel → unhex 0 (hex fuel n) ≡ n
unfolding hex
unhex-hex zero n h = absurd (omega (arith, h))
unhex-hex (suc fuel) n h = elim (Bool-cases (ltb n 16)) [
  | inl e ↦ rw e (let d = unhex-hex_digit 0 n (ground (arith, e)) in omega (arith, d))
  | inr e ↦
      let large : 15 < n = ground (arith, e) in
      let front = unhex-hex fuel (n / 16) (omega (arith, h, large)) in
      let back = unhex-hex_digit (n / 16) (n % 16) (omega arith) in
      rw e (
        unhex-append 0 (hex fuel (n / 16)) (hex_digit (n % 16))
        ∙ ap (λ a. unhex a (hex_digit (n % 16))) front
        ∙ back
        ∙ omega arith)
]

unhex_zero : (b : Bool) (t : String) → unhex 0 ((if b then "0" else "") ++ t) ≡ unhex 0 t
unfolding unhex
unhex_zero true t = unhex-append 0 "0" t
unhex_zero false t = unhex-append 0 "" t

-- The sequence number of a delivery, read as a hexadecimal number, is the number that it was made of.
pub unhex-seq_text : (seq : ℕ) → unhex 0 (seq_text seq) ≡ seq
unfolding seq_text
unhex-seq_text seq =
    unhex_zero (ltb seq 0x100) _
    ∙ unhex_zero (ltb seq 0x10) _
    ∙ unhex-hex (suc seq) seq (omega arith)
