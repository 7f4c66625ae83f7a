-- ===== src/Server/Mfa/Accepted.antt =====
-- A recovery code that a user is shown is one that the user may enter (mfa-recovery-code.service.ts).
use Prim.Native.String
use Prim.Native.String.append
use Prim.Native.Char.{Char, code}
use seleksi2_labpro.Prelude.{
  ℕ, zero, suc, ◌+◌, ◌≤◌, ◌≡◌, refl, ap, sym, ◌∙◌, String, true, false, some, arith, Bool-cases,
  inl, inr, length, ◌==◌,
}
use seleksi2_labpro.Shared.Pattern.{codes}
use seleksi2_labpro.Server.Runtime.{Runtime, every}
use seleksi2_labpro.Server.Mfa.Codes.{
  is_recovery_char, without_dashes, normalize_recovery_code, hash_recovery_code,
}
use seleksi2_labpro.Server.Mfa.Recovery.{take_text, drop_text, slice, format, DrawnCode, new_code}

abbrev joined : String → String → String
joined = String.◌++◌

joined_nil : (t : String) → joined "" t ≡ t
joined_nil t = append.nil t

joined_cons : (c : Char) (s t : String) → joined (String.◌∷◌ c s) t ≡ String.◌∷◌ c (joined s t)
joined_cons c s t = append.cons c s t

without_dashes-joined :
    (s t : String) → without_dashes (joined s t) ≡ joined (without_dashes s) (without_dashes t)
unfolding without_dashes
without_dashes-joined String.[] t = ap without_dashes (joined_nil t) ∙ sym (joined_nil _)
without_dashes-joined (String.◌∷◌ c s) t =
    ap without_dashes (joined_cons c s t) ∙ elim (Bool-cases (code c == b'-')) [
      | inl dash ↦ rw dash (without_dashes-joined s t)
      | inr other ↦
          rw other (ap (String.◌∷◌ c) (without_dashes-joined s t) ∙ sym (joined_cons c _ _))
    ]

-- A text of the codes' characters.
abbrev IsCode : String → Type 0
IsCode s = every is_recovery_char (codes s) ≡ true

no_dash : (n : ℕ) → is_recovery_char n ≡ true → (n == b'-') ≡ false
no_dash n h = ground arith

without_dashes-IsCode : (s : String) → IsCode s → without_dashes s ≡ s
unfolding without_dashes every
without_dashes-IsCode String.[] h = refl
without_dashes-IsCode (String.◌∷◌ c s) h =
    let ok : is_recovery_char (code c) ≡ true = ground arith in
    rw (no_dash (code c) ok) (ap (String.◌∷◌ c) (without_dashes-IsCode s (ground arith)))

take_text-IsCode : (n : ℕ) (s : String) → IsCode s → IsCode (take_text n s)
unfolding every
take_text-IsCode zero s h = refl
take_text-IsCode (suc n) String.[] h = refl
take_text-IsCode (suc n) (String.◌∷◌ c s) h = ground (arith, take_text-IsCode n s)

drop_text-IsCode : (n : ℕ) (s : String) → IsCode s → IsCode (drop_text n s)
unfolding every
drop_text-IsCode zero s h = h
drop_text-IsCode (suc n) String.[] h = refl
drop_text-IsCode (suc n) (String.◌∷◌ c s) h = drop_text-IsCode n s (ground arith)

take-drop : (n : ℕ) (s : String) → joined (take_text n s) (drop_text n s) ≡ s
take-drop zero s = joined_nil s
take-drop (suc n) String.[] = joined_nil ""
take-drop (suc n) (String.◌∷◌ c s) = joined_cons c _ _ ∙ ap (String.◌∷◌ c) (take-drop n s)

take_all : (n : ℕ) (s : String) → length (codes s) ≤ n → take_text n s ≡ s
take_all zero String.[] h = refl
take_all zero (String.◌∷◌ c s) h = absurd (omega arith)
take_all (suc n) String.[] h = refl
take_all (suc n) (String.◌∷◌ c s) h = ap (String.◌∷◌ c) (take_all n s (omega arith))

drop_drop : (m n k : ℕ) (s : String) → k ≡ n + m → drop_text m (drop_text n s) ≡ drop_text k s
drop_drop m zero k s e = let same : m ≡ k = omega arith in ap (λ x. drop_text x s) same
drop_drop m (suc n) zero s e = absurd (omega arith)
drop_drop zero (suc n) (suc k) String.[] e = refl
drop_drop (suc m) (suc n) (suc k) String.[] e = refl
drop_drop m (suc n) (suc k) (String.◌∷◌ c s) e = drop_drop m n k s (omega arith)

length-drop_text :
    (n : ℕ) (s : String)
    → n ≤ length (codes s)
    → n + length (codes (drop_text n s)) ≡ length (codes s)
length-drop_text zero s h = omega arith
length-drop_text (suc n) String.[] h = omega arith
length-drop_text (suc n) (String.◌∷◌ c s) h = omega (arith, length-drop_text n s)

slices :
    (s : String)
    → length (codes s) ≡ 12
    → joined (slice 0 4 s) (joined (slice 4 8 s) (slice 8 12 s)) ≡ s
slices s n =
    ap (λ t. joined (take_text 4 s) (joined (take_text 4 (drop_text 4 s)) t))
      (take_all 4 (drop_text 8 s) (omega (arith, length-drop_text 8 s))
        ∙ sym (drop_drop 4 4 8 s (omega arith)))
    ∙ ap (joined (take_text 4 s)) (take-drop 4 (drop_text 4 s))
    ∙ take-drop 4 s

dash_between :
    (s t : String)
    → IsCode s
    → without_dashes (joined s (joined "-" t)) ≡ joined s (without_dashes t)
unfolding without_dashes
dash_between s t h =
    without_dashes-joined s (joined "-" t)
    ∙ ap (λ x. joined x (without_dashes (joined "-" t))) (without_dashes-IsCode s h)
    ∙ ap (joined s) (without_dashes-joined "-" t ∙ joined_nil _)

without_dashes-format :
    (s : String) → length (codes s) ≡ 12 → IsCode s → without_dashes (format s) ≡ s
unfolding format
without_dashes-format s n h =
    dash_between (slice 0 4 s) _ (take_text-IsCode 4 s h)
    ∙ ap (joined (slice 0 4 s)) (
        dash_between (slice 4 8 s) _ (take_text-IsCode 4 _ (drop_text-IsCode 4 s h))
        ∙ ap (joined (slice 4 8 s))
            (without_dashes-IsCode (slice 8 12 s) (take_text-IsCode 4 _ (drop_text-IsCode 8 s h))))
    ∙ slices s n

normalize-format :
    (rt : Runtime) (s : String)
    → length (codes s) ≡ 12
    → IsCode s
    → rt.normalize_upper (format s) ≡ format s
    → normalize_recovery_code rt (format s) ≡ some s
unfolding normalize_recovery_code
normalize-format rt s n h e = rw (e, without_dashes-format s n h, h, n) refl

-- A recovery code as a user is shown it, of twelve characters of the alphabet, is normalized to the
-- code that was drawn, and its hash is the one in the code's row, where trimming and upper-casing
-- leave it as it is.
pub shown_accepted :
    (rt : Runtime) (user_id : String) (d : DrawnCode)
    → length (codes d.compact) ≡ 12
    → every is_recovery_char (codes d.compact) ≡ true
    → rt.normalize_upper (format d.compact) ≡ format d.compact
    → (normalize_recovery_code rt (format d.compact) ≡ some d.compact)
      × (hash_recovery_code rt user_id (format d.compact) ≡ some (new_code rt user_id d).code_hash)
unfolding hash_recovery_code
shown_accepted rt user_id d n h e = let k = normalize-format rt d.compact n h e in (k, rw k refl)
