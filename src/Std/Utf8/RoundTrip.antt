-- ===== src/Std/Utf8/RoundTrip.antt =====
-- A text is read back from its bytes in UTF-8 (`from_utf8` and `from_utf8_lossy`).
use apeiron.Base.{
  ℕ, suc, ◌∙◌, ◌+◌, ◌-◌, ◌*◌, ◌/◌, ◌%◌, ◌<◌, ◌≤◌, ◌≡◌, refl, ap, inl, inr, Option, none, some, [],
  ◌∷◌, ◌++◌, arith, ltb, map_option, Bytes, Text, All, Bool-cases, ◌==◌,
}
use apeiron.Std.Utf8.{
  Partial, between, utf8_step, decode, from_utf8, from_utf8_lossy, from_utf8_lossy-from_utf8,
}
use apeiron.Std.Utf8.Encode.{IsScalar, encode_char, encode}

map_same : (o : Option Text) → map_option (λ t. t) o ≡ o
map_same none = refl
map_same (some t) = refl

step_more :
    (p q : Partial) (b : ℕ) (bs : Bytes)
    → utf8_step p b ≡ some (q, [])
    → decode p (b ∷ bs) ≡ decode q bs
unfolding decode
step_more p q b bs e = rw (e, decode) (map_same (decode q bs))

step_last :
    (p : Partial) (b c : ℕ) (bs : Bytes)
    → utf8_step p b ≡ some (between, c ∷ [])
    → decode p (b ∷ bs) ≡ map_option (λ t. c ∷ t) (decode between bs)
unfolding decode
step_last p b c bs e = rw (e, decode) refl

abbrev partial : ℕ → ℕ → ℕ → ℕ → Partial
partial needed bits lo hi = record { needed = needed; bits = bits; lo = lo; hi = hi }

lead_two :
    (c : ℕ)
    → 0x80 ≤ c
    → c < 0x800
    → utf8_step between (0xc0 + c / 64) ≡ some (partial 1 (c / 64) 0x80 0xbf, [])
unfolding utf8_step
lead_two c h k = ground arith

ends :
    (bits lo hi y c : ℕ)
    → lo ≤ y
    → y ≤ hi
    → bits * 64 + (y - 0x80) ≡ c
    → utf8_step (partial 1 bits lo hi) y ≡ some (between, c ∷ [])
unfolding utf8_step
ends bits lo hi y c h k e = ground (arith, e)

goes_on :
    (n bits lo hi y c : ℕ)
    → lo ≤ y
    → y ≤ hi
    → bits * 64 + (y - 0x80) ≡ c
    → utf8_step (partial (suc (suc n)) bits lo hi) y ≡ some (partial (suc n) c 0x80 0xbf, [])
unfolding utf8_step
goes_on n bits lo hi y c h k e = ground (arith, e)

-- The range of the second byte of a longer character holds its byte.
record Leads (needed c b y : ℕ) : Type 0 where
  lo : ℕ
  hi : ℕ
  begins : utf8_step between b ≡ some (partial needed c lo hi, [])
  above : lo ≤ y
  below : y ≤ hi

lead_three :
    (c : ℕ)
    → 0x800 ≤ c
    → c < 0x1_0000
    → IsScalar c
    → Leads 2 (c / 4096) (0xe0 + c / 4096) (0x80 + c / 64 % 64)
unfolding utf8_step
lead_three c h k s = elim (Bool-cases (c / 4096 == 0)) [
  | inl e ↦ record {
    lo = 0xa0;
    hi = 0xbf;
    begins = ground (arith, e, h, k);
    above = ground (arith, e, h);
    below = omega arith;
  }
  | inr e ↦ elim (Bool-cases (c / 4096 == 0xd)) [
    | inl e' ↦ record {
      lo = 0x80;
      hi = 0x9f;
      begins = ground (arith, e');
      above = omega arith;
      below = ground (arith, e', s);
    }
    | inr e' ↦ record {
      lo = 0x80;
      hi = 0xbf;
      begins = ground (arith, e, e', k);
      above = omega arith;
      below = omega arith;
    }
  ]
]

lead_four :
    (c : ℕ)
    → 0x1_0000 ≤ c
    → IsScalar c
    → Leads 3 (c / 262144) (0xf0 + c / 262144) (0x80 + c / 4096 % 64)
unfolding utf8_step
lead_four c h s = elim (Bool-cases (c / 262144 == 0)) [
  | inl e ↦ record {
    lo = 0x90;
    hi = 0xbf;
    begins = ground (arith, e, h);
    above = ground (arith, e, h);
    below = omega arith;
  }
  | inr e ↦ elim (Bool-cases (c / 262144 == 4)) [
    | inl e' ↦ record {
      lo = 0x80;
      hi = 0x8f;
      begins = ground (arith, e');
      above = omega arith;
      below = ground (arith, e', s);
    }
    | inr e' ↦ record {
      lo = 0x80;
      hi = 0xbf;
      begins = ground (arith, e, e', s);
      above = omega arith;
      below = omega arith;
    }
  ]
]

abbrev Reads : ℕ → Bytes → Bytes → Type 0
Reads c cs bs = decode between (cs ++ bs) ≡ map_option (λ t. c ∷ t) (decode between bs)

encode_one : (c : ℕ) (bs : Bytes) → c < 0x80 → Reads c (c ∷ []) bs
unfolding utf8_step
encode_one c bs h = step_last between c c bs (ground (arith, h))

encode_two :
    (c : ℕ) (bs : Bytes)
    → 0x80 ≤ c
    → c < 0x800
    → Reads c ((0xc0 + c / 64) ∷ (0x80 + c % 64) ∷ []) bs
encode_two c bs h k =
    step_more between (partial 1 (c / 64) 0x80 0xbf) _ _ (lead_two c h k)
    ∙ step_last _ _ c bs
        (ends (c / 64) 0x80 0xbf (0x80 + c % 64) c (omega arith) (omega arith) (omega arith))

encode_three :
    (c : ℕ) (bs : Bytes)
    → 0x800 ≤ c
    → c < 0x1_0000
    → IsScalar c
    → Reads c ((0xe0 + c / 4096) ∷ (0x80 + c / 64 % 64) ∷ (0x80 + c % 64) ∷ []) bs
encode_three c bs h k s =
    let l = lead_three c h k s in
    step_more between (partial 2 (c / 4096) l.lo l.hi) _ _ l.begins
    ∙ step_more _ (partial 1 (c / 64) 0x80 0xbf) _ _
        (goes_on 0 (c / 4096) l.lo l.hi (0x80 + c / 64 % 64) (c / 64) l.above l.below (omega arith))
    ∙ step_last _ _ c bs
        (ends (c / 64) 0x80 0xbf (0x80 + c % 64) c (omega arith) (omega arith) (omega arith))

encode_four :
    (c : ℕ) (bs : Bytes)
    → 0x1_0000 ≤ c
    → IsScalar c
    → Reads c
        ((0xf0 + c / 262144) ∷ (0x80 + c / 4096 % 64) ∷ (0x80 + c / 64 % 64) ∷ (0x80 + c % 64) ∷ [])
        bs
encode_four c bs h s =
    let l = lead_four c h s in
    step_more between (partial 3 (c / 262144) l.lo l.hi) _ _ l.begins
    ∙ step_more _ (partial 2 (c / 4096) 0x80 0xbf) _ _ (
        goes_on 1 (c / 262144) l.lo l.hi (0x80 + c / 4096 % 64) (c / 4096) l.above l.below
          (omega arith))
    ∙ step_more _ (partial 1 (c / 64) 0x80 0xbf) _ _ (
        goes_on 0 (c / 4096) 0x80 0xbf (0x80 + c / 64 % 64) (c / 64) (omega arith) (omega arith)
          (omega arith))
    ∙ step_last _ _ c bs
        (ends (c / 64) 0x80 0xbf (0x80 + c % 64) c (omega arith) (omega arith) (omega arith))

decode-encode_char : (c : ℕ) (bs : Bytes) → IsScalar c → Reads c (encode_char c) bs
unfolding encode_char
decode-encode_char c bs s = elim (Bool-cases (ltb c 0x80)) [
  | inl e ↦ rw e (encode_one c bs (ground (arith, e)))
  | inr e ↦ elim (Bool-cases (ltb c 0x800)) [
    | inl e' ↦ rw (e, e') (encode_two c bs (ground (arith, e)) (ground (arith, e')))
    | inr e' ↦ elim (Bool-cases (ltb c 0x1_0000)) [
      | inl f ↦ rw (e, e', f) (encode_three c bs (ground (arith, e')) (ground (arith, f)) s)
      | inr f ↦ rw (e, e', f) (encode_four c bs (ground (arith, f)) s)
    ]
  ]
]

pub from_utf8-encode : (s : Text) → All IsScalar s → from_utf8 (encode s) ≡ some s
unfolding from_utf8 encode decode
from_utf8-encode [] h = refl
from_utf8-encode (c ∷ s) (hc, h) =
    decode-encode_char c (encode s) hc ∙ ap (map_option (λ t. c ∷ t)) (from_utf8-encode s h)

pub from_utf8_lossy-encode : (s : Text) → All IsScalar s → from_utf8_lossy (encode s) ≡ s
from_utf8_lossy-encode s h = from_utf8_lossy-from_utf8 (encode s) s (from_utf8-encode s h)
