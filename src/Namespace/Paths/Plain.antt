-- ===== src/Namespace/Paths/Plain.antt =====
-- A path of plain elements is clean, and such paths are joined by a slash.
use cloudy_neigh.Prelude.{
  ℕ, ◌≡◌, ◌≢◌, refl, ap, ◌∙◌, false, List, [], ◌∷◌, ◌++◌, append-nil, append_assoc, Bytes, bytes_eq,
  ◌==◌, codes, All, arith,
}
use cloudy_neigh.Namespace.Paths.{
  split, joined, keep_all, reverse_onto, is_rooted, rebuilt, clean, join,
}

abbrev pub NoSlash : ℕ → Type 0
NoSlash c = c ≢ b'/'

-- An element that stays where it is: without a slash, not empty, and neither `.` nor `..`.
pub record IsPlain (e : Bytes) : Type 0 where
  pub no_slash : All NoSlash e
  pub not_empty : bytes_eq e [] ≡ false
  pub not_here : bytes_eq e (codes ".") ≡ false
  pub not_up : bytes_eq e (codes "..") ≡ false

split-slash : (a b : Bytes) → All NoSlash a → split (a ++ (b'/' ∷ b)) ≡ a ∷ split b
unfolding split
split-slash [] b h = refl
split-slash (c ∷ a) b (hc, h) =
    let other : (c == b'/') ≡ false = ground arith in rw other (rw (split-slash a b h) refl)

split-element : (a : Bytes) → All NoSlash a → split a ≡ a ∷ []
unfolding split
split-element [] h = refl
split-element (c ∷ a) (hc, h) =
    let other : (c == b'/') ≡ false = ground arith in rw other (rw (split-element a h) refl)

-- The elements are read back.
pub split-joined :
    (e : Bytes) (es : List Bytes) → All IsPlain (e ∷ es) → split (joined (e ∷ es)) ≡ e ∷ es
unfolding joined
split-joined e [] (h, hs) = split-element e h.no_slash
split-joined e (f ∷ es) (h, hs) =
    split-slash e (joined (f ∷ es)) h.no_slash ∙ ap (λ l. e ∷ l) (split-joined f es hs)

keep_all-plain :
    (out es : List Bytes) → All IsPlain es → keep_all false out es ≡ reverse_onto es out
unfolding keep_all reverse_onto
keep_all-plain out [] h = refl
keep_all-plain out (e ∷ es) (h, hs) =
    rw h.not_empty (rw h.not_here (rw h.not_up (keep_all-plain (e ∷ out) es hs)))

reverse_onto-twice :
    (es out acc : List Bytes)
    → reverse_onto (reverse_onto es out) acc ≡ reverse_onto out (es ++ acc)
unfolding reverse_onto
reverse_onto-twice [] out acc = refl
reverse_onto-twice (e ∷ es) out acc = reverse_onto-twice es (e ∷ out) acc

is_rooted-joined : (e : Bytes) (es : List Bytes) → IsPlain e → is_rooted (joined (e ∷ es)) ≡ false
unfolding joined bytes_eq
is_rooted-joined [] es h = absurd (ground (arith, h.not_empty))
is_rooted-joined (c ∷ e) [] h = let other = h.no_slash.0 in ground arith
is_rooted-joined (c ∷ e) (f ∷ es) h = let other = h.no_slash.0 in ground arith

pub clean-joined :
    (e : Bytes) (es : List Bytes) → All IsPlain (e ∷ es) → clean (joined (e ∷ es)) ≡ joined (e ∷ es)
unfolding clean
clean-joined e es h = rw (is_rooted-joined e es h.0) (
    rw (split-joined e es h) (
      rw (keep_all-plain [] (e ∷ es) h) (
        rw (reverse_onto-twice (e ∷ es) [] [])
          (ap (λ l. rebuilt false l) (unfold reverse_onto in append-nil (e ∷ es))))))

joined-append :
    (e : Bytes) (es : List Bytes) (f : Bytes) (fs : List Bytes)
    → joined (e ∷ es) ++ (b'/' ∷ joined (f ∷ fs)) ≡ joined (e ∷ (es ++ (f ∷ fs)))
unfolding joined
joined-append e [] f fs = refl
joined-append e (g ∷ es) f fs =
    append_assoc e (b'/' ∷ joined (g ∷ es)) (b'/' ∷ joined (f ∷ fs))
    ∙ ap (λ (l : Bytes). e ++ (b'/' ∷ l)) (joined-append g es f fs)

All-append : (es fs : List Bytes) → All IsPlain es → All IsPlain fs → All IsPlain (es ++ fs)
All-append [] fs h k = k
All-append (e ∷ es) fs (h, hs) k = (h, All-append es fs hs k)

join-parts :
    (a b : Bytes)
    → bytes_eq a [] ≡ false
    → bytes_eq b [] ≡ false
    → join a b ≡ clean (a ++ (b'/' ∷ b))
unfolding bytes_eq join
join-parts [] b ha hb = cc
join-parts (c ∷ a) [] ha hb = cc
join-parts (c ∷ a) (d ∷ b) ha hb = refl

joined-not_empty : (e : Bytes) (es : List Bytes) → IsPlain e → bytes_eq (joined (e ∷ es)) [] ≡ false
unfolding joined bytes_eq
joined-not_empty e [] h = h.not_empty
joined-not_empty [] (f ∷ es) h = refl
joined-not_empty (c ∷ e) (f ∷ es) h = refl

-- Two paths of plain elements are joined to that of all elements.
pub join-joined :
    (e : Bytes) (es : List Bytes) (f : Bytes) (fs : List Bytes)
    → All IsPlain (e ∷ es)
    → All IsPlain (f ∷ fs)
    → join (joined (e ∷ es)) (joined (f ∷ fs)) ≡ joined (e ∷ (es ++ (f ∷ fs)))
join-joined e es f fs h k =
    join-parts (joined (e ∷ es)) (joined (f ∷ fs)) (joined-not_empty e es h.0)
      (joined-not_empty f fs k.0)
    ∙ ap clean (joined-append e es f fs)
    ∙ clean-joined e (es ++ (f ∷ fs)) (h.0, All-append es (f ∷ fs) h.1 k)
