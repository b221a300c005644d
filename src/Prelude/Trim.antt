-- ===== src/Prelude/Trim.antt =====
-- What strings.TrimSpace and strings.Cut give, said of the parts of a text.
use mathlib.Core.Path.{◌≡◌, refl, sym, ap, ◌∙◌}
use mathlib.Core.Logic.{◌≢◌, inl, inr}
use mathlib.Core.Bool.{Bool, true, false}
use mathlib.Core.List.{[], ◌∷◌, ◌++◌, reverse, reverse-cons, reverse-append, reverse-reverse}
use Prim.Native.Nat.{ℕ}
use native.Mathlib.Omega.{arith}
use go_espn_api.Prelude.Tests.{◌==◌, Bool-cases}
use go_espn_api.Prelude.Lists.{All}
use go_espn_api.Prelude.Text.{Bytes, is_space, trim_left, trim_space, cut_before, cut_after}

abbrev pub IsBlank : Bytes → Type 0
IsBlank = All (λ c. is_space c ≡ true)

abbrev begins_blank : Bytes → Bool
begins_blank [] = false
begins_blank (c ∷ s) = is_space c

-- A text is another one between white space, and that one neither begins nor ends in white space.
pub record Trims (raw core : Bytes) : Type 0 where
  pub front : Bytes
  pub back : Bytes
  pub whole : raw ≡ front ++ (core ++ back)
  pub front_blank : IsBlank front
  pub back_blank : IsBlank back
  pub begins : begins_blank core ≡ false
  pub ends : begins_blank (reverse core) ≡ false

IsBlank-append : (s t : Bytes) → IsBlank s → IsBlank t → IsBlank (s ++ t)
IsBlank-append [] t h k = k
IsBlank-append (c ∷ s) t (h, hs) k = (h, IsBlank-append s t hs k)

IsBlank-reverse : (s : Bytes) → IsBlank s → IsBlank (reverse s)
IsBlank-reverse [] h = tt
IsBlank-reverse (c ∷ s) (h, hs) =
    rw reverse-cons (IsBlank-append (reverse s) (c ∷ []) (IsBlank-reverse s hs) (h, tt))

-- What trim_left takes off.
trim_left-split :
    (s : Bytes)
    → (front : Bytes) × (s ≡ front ++ trim_left s)
      × IsBlank front
      × (begins_blank (trim_left s) ≡ false)
unfolding trim_left
trim_left-split [] = ([], refl, tt, refl)
trim_left-split (c ∷ s) = elim (Bool-cases (is_space c)) [
  | inl y ↦
      let (front, e, b, n) = trim_left-split s in
      (c ∷ front, rw y (ap (λ z. c ∷ z) e), (y, b), rw y n)
  | inr m ↦ ([], rw m refl, tt, rw m m)
]

begins_blank-append : (s t : Bytes) → begins_blank (s ++ t) ≡ false → begins_blank s ≡ false
begins_blank-append [] t h = refl
begins_blank-append (c ∷ s) t h = h

pub trim_space-Trims : (s : Bytes) → Trims s (trim_space s)
unfolding trim_space
trim_space-Trims s =
    let t = trim_left s in
    let u = trim_left (reverse t) in
    let (front, e, b, n) = trim_left-split s in
    let (back, f, c, m) = trim_left-split (reverse t) in
    let g : t ≡ reverse u ++ reverse back =
      sym (reverse-reverse t) ∙ ap reverse f ∙ reverse-append back u in
    record {
      front = front;
      back = reverse back;
      whole = e ∙ ap (λ z. front ++ z) g;
      front_blank = b;
      back_blank = IsBlank-reverse back c;
      begins = begins_blank-append (reverse u) (reverse back) (ap begins_blank (sym g) ∙ n);
      ends = ap begins_blank (reverse-reverse u) ∙ m;
    }

-- Only white space has nothing between.
pub Trims-IsBlank : (raw core : Bytes) → Trims raw core → core ≡ [] → IsBlank raw
Trims-IsBlank raw core h e =
    let f : raw ≡ h.front ++ h.back = h.whole ∙ ap (λ z. h.front ++ (z ++ h.back)) e in
    rw f (IsBlank-append h.front h.back h.front_blank h.back_blank)

abbrev pub Lacks : ℕ → Bytes → Type 0
Lacks sep = All (λ c. c ≢ sep)

-- The two sides of the first separator of a text; all of it, and nothing, where it has none.
pub data Cuts (sep : ℕ) (text a b : Bytes) : Type 0 where
  uncut : Lacks sep text → a ≡ text → b ≡ [] → Cuts sep text a b
  cut : Lacks sep a → text ≡ a ++ (sep ∷ b) → Cuts sep text a b

Cuts-cons : (sep c : ℕ) (s a b : Bytes) → c ≢ sep → Cuts sep s a b → Cuts sep (c ∷ s) (c ∷ a) b
Cuts-cons sep c s a b n (uncut l e f) = uncut (n, l) (ap (λ z. c ∷ z) e) f
Cuts-cons sep c s a b n (cut l e) = cut (n, l) (ap (λ z. c ∷ z) e)

pub cut-Cuts : (sep : ℕ) (s : Bytes) → Cuts sep s (cut_before sep s) (cut_after sep s)
unfolding cut_before cut_after
cut-Cuts sep [] = uncut tt refl refl
cut-Cuts sep (c ∷ s) = elim (Bool-cases (c == sep)) [
  | inl y ↦ let e : c ≡ sep = ground arith in rw y (cut tt (ap (λ z. z ∷ s) e))
  | inr m ↦
      let n : c ≢ sep = λ e. ground arith in
      rw m (Cuts-cons sep c s (cut_before sep s) (cut_after sep s) n (cut-Cuts sep s))
]
