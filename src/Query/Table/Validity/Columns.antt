-- ===== src/Query/Table/Validity/Columns.antt =====
-- What a staged vector is, and the columns with those that are made for the staged vectors.
use cloudy_neigh.Prelude.{
  ℕ, suc, ◌≡◌, refl, ap, ◌∙◌, Bool, true, false, Option, none, some, List, [], ◌∷◌, Bytes, bytes_eq,
  bytes_eq_iff, length, length-replicate, replicate, if◌then◌else◌, Result, ok, err, inl, inr,
  Bool-cases, arith, ==_iff, ◌==◌, ◌>>=◌,
}
use cloudy_neigh.Prelude.Assoc
use cloudy_neigh.Prelude.Assoc.{Assoc, lookup-insert}
use cloudy_neigh.Ingest.Messages.{Float, AttributeValue}
use cloudy_neigh.Vector.Half.{encode_fp16, converted, is_not_finite, fp16_from_float32}
use cloudy_neigh.Query.Numbers.{Arithmetic, Kernels, vector_inv_norm}
use cloudy_neigh.Query.Table.{
  FlatVectorCol, AttrCol, StagedVector, check_dim, is16, staged_halves, stage_vector, stage,
  fresh_col, add_col, add_cols, add_attr, add_attrs,
}

pub Result-step :
    {A B : Type 0} (r : Result A) (f : A → Result B) (b : B)
    → (r >>= f) ≡ ok b
    → (a : A) × (r ≡ ok a) × (f a ≡ ok b)
Result-step (ok a) f b h = (a, refl, h)
Result-step (err e) f b h = cc

pub length-encode_fp16 : (v : List ℕ) (d : List ℕ) → encode_fp16 v ≡ ok d → length d ≡ length v
unfolding encode_fp16
length-encode_fp16 [] d h = ap length {x = d} {y = []} cc
length-encode_fp16 (x ∷ v) d h = elim (Bool-cases (is_not_finite x)) [
  | inl bad ↦ absurd (ground arith)
  | inr fine ↦
      let (y, _, more) = Result-step (converted (fp16_from_float32 x)) _ d (rw fine at h) in
      let (ys, rest, last) = Result-step (encode_fp16 v) _ d more in
      let is_d : y ∷ ys ≡ d = cc in rw (← is_d) (ap suc (length-encode_fp16 v ys rest))
]

module _ (numbers : Arithmetic) (kernels : Kernels) where
  -- A vector in the form that the table keeps.
  pub record Staged (vec : List Float) (sv : StagedVector) : Type 0 where
    pub same : sv.values ≡ vec
    pub norm : sv.inv_norm ≡ vector_inv_norm numbers vec
    pub halves : staged_halves numbers kernels (is16 numbers kernels) vec ≡ ok sv.data16

  pub check_dim-ok : (n : ℕ) (c : FlatVectorCol) → check_dim n (some c) ≡ ok tt → c.dim ≡ n
  check_dim-ok n c h = elim (Bool-cases (c.dim == n)) [
    | inl fits ↦ (==_iff c.dim n).0 fits
    | inr bad ↦ absurd (ground arith)
  ]

  stage_vector-Staged :
      (o : Option FlatVectorCol) (vec : List Float) (sv : StagedVector)
      → stage_vector numbers kernels o vec ≡ ok sv
      → Staged vec sv × (check_dim (length vec) o ≡ ok tt)
  stage_vector-Staged o vec sv h =
      let (_, fits, more) = Result-step (check_dim (length vec) o) _ sv h in
      let (d, halves, last) =
        Result-step (staged_halves numbers kernels (is16 numbers kernels) vec) _ sv more in
      let is_sv : record { values = vec; data16 = d; inv_norm = vector_inv_norm numbers vec } ≡ sv =
        cc in
      (rw (← is_sv) (record { same = refl; norm = refl; halves = halves }), fits)

  -- Every staged vector is one that was given, and fits its column.
  pub stage-Staged :
      (cols : Assoc FlatVectorCol) (vecs : Assoc (List Float)) (staged : Assoc StagedVector)
      (name : Bytes) (sv : StagedVector)
      → stage numbers kernels cols vecs ≡ ok staged
      → Assoc.lookup name staged ≡ some sv
      → (vec : List Float) × Staged vec sv
        × (check_dim (length vec) (Assoc.lookup name cols) ≡ ok tt)
  unfolding stage Assoc.lookup
  stage-Staged cols [] staged name sv h e =
      let empty : [] ≡ staged = cc in let never : none ≡ some sv = rw (← empty) at e in cc
  stage-Staged cols ((n, []) ∷ vecs) staged name sv h e = stage-Staged cols vecs staged name sv h e
  stage-Staged cols ((n, x ∷ v) ∷ vecs) staged name sv h e =
      let (sv', here, more) =
        Result-step (stage_vector numbers kernels (Assoc.lookup n cols) (x ∷ v)) _ staged h in
      let (rest, behind, last) = Result-step (stage numbers kernels cols vecs) _ staged more in
      let is_staged : (n, sv') ∷ rest ≡ staged = cc in
      let found = rw (← is_staged) at e in
      elim (Bool-cases (bytes_eq n name)) [
        | inl same ↦
            let at : some sv' ≡ some sv = rw same at found in
            let is_sv : sv' ≡ sv = cc in
            let (is_staged', fits) = stage_vector-Staged (Assoc.lookup n cols) (x ∷ v) sv' here in
            (x ∷ v, rw is_sv at is_staged', rw ((bytes_eq_iff n name).0 same) at fits)
        | inr other ↦ stage-Staged cols vecs rest name sv behind (rw other at found)
      ]

  -- A vector that is given and not empty is staged.
  pub stage_found :
      (cols : Assoc FlatVectorCol) (vecs : Assoc (List Float)) (staged : Assoc StagedVector)
      (name : Bytes) (y : Float) (vec : List Float)
      → stage numbers kernels cols vecs ≡ ok staged
      → Assoc.lookup name vecs ≡ some (y ∷ vec)
      → (sv : StagedVector) × (Assoc.lookup name staged ≡ some sv) × Staged (y ∷ vec) sv
  unfolding stage Assoc.lookup
  stage_found cols [] staged name y vec h e = cc
  stage_found cols ((n, []) ∷ vecs) staged name y vec h e = elim (Bool-cases (bytes_eq n name)) [
    | inl same ↦ absurd (ground arith)
    | inr other ↦ stage_found cols vecs staged name y vec h (rw other at e)
  ]
  stage_found cols ((n, x ∷ v) ∷ vecs) staged name y vec h e =
      let (sv', here, more) =
        Result-step (stage_vector numbers kernels (Assoc.lookup n cols) (x ∷ v)) _ staged h in
      let (rest, behind, last) = Result-step (stage numbers kernels cols vecs) _ staged more in
      let is_staged : (n, sv') ∷ rest ≡ staged = cc in
      rw (← is_staged) (elim (Bool-cases (bytes_eq n name)) [
        | inl same ↦
            let at : some (x ∷ v) ≡ some (y ∷ vec) = rw same at e in
            let is_vec : x ∷ v ≡ y ∷ vec = cc in
            let (is_staged', _) = stage_vector-Staged (Assoc.lookup n cols) (x ∷ v) sv' here in
            rw same (sv', refl, rw is_vec at is_staged')
        | inr other ↦ rw other (stage_found cols vecs rest name y vec behind (rw other at e))
      ])

  -- A column that is there, or else a fresh one for what is staged.
  abbrev pub or_fresh : ℕ → Option FlatVectorCol → Option StagedVector → Option FlatVectorCol
  or_fresh rows (some c) sv = some c
  or_fresh rows none none = none
  or_fresh rows none (some sv) = some (fresh_col numbers kernels rows (length sv.values))

  lookup-add_col :
      (rows : ℕ) (n name : Bytes) (sv : StagedVector) (o : Option FlatVectorCol)
      (cols : Assoc FlatVectorCol) (st : Option StagedVector)
      → Assoc.lookup n cols ≡ o
      → or_fresh rows (Assoc.lookup name (add_col numbers kernels rows n sv o cols)) st
        ≡ or_fresh rows (Assoc.lookup name cols) (if bytes_eq n name then some sv else st)
  lookup-add_col rows n name sv (some c) cols st h = elim (Bool-cases (bytes_eq n name)) [
    | inl same ↦
        let at : Assoc.lookup name cols ≡ some c = rw ((bytes_eq_iff n name).0 same) at h in
        rw same (rw at refl)
    | inr other ↦ rw other refl
  ]
  lookup-add_col rows n name sv none cols st h =
      rw (lookup-insert n name (fresh_col numbers kernels rows (length sv.values)) cols)
        (elim (Bool-cases (bytes_eq n name)) [
          | inl same ↦
              let at : Assoc.lookup name cols ≡ none = rw ((bytes_eq_iff n name).0 same) at h in
              rw same (rw at refl)
          | inr other ↦ rw other refl
        ])

  or_fresh-none : (rows : ℕ) (o : Option FlatVectorCol) → o ≡ or_fresh rows o none
  or_fresh-none rows none = refl
  or_fresh-none rows (some c) = refl

  pub lookup-add_cols :
      (rows : ℕ) (staged : Assoc StagedVector) (cols : Assoc FlatVectorCol) (name : Bytes)
      → Assoc.lookup name (add_cols numbers kernels rows staged cols)
        ≡ or_fresh rows (Assoc.lookup name cols) (Assoc.lookup name staged)
  unfolding add_cols Assoc.lookup
  lookup-add_cols rows [] cols name = or_fresh-none rows (Assoc.lookup name cols)
  lookup-add_cols rows ((n, sv) ∷ staged) cols name =
      lookup-add_cols rows staged (add_col numbers kernels rows n sv (Assoc.lookup n cols) cols)
        name
      ∙ lookup-add_col rows n name sv (Assoc.lookup n cols) cols (Assoc.lookup name staged) refl

  add_attr-length :
      (rows : ℕ) (n name : Bytes) (o : Option AttrCol) (cols : Assoc AttrCol) (c : AttrCol)
      → ((k : Bytes) (d : AttrCol) → Assoc.lookup k cols ≡ some d → length d ≡ rows)
      → Assoc.lookup name (add_attr numbers kernels rows n o cols) ≡ some c
      → length c ≡ rows
  add_attr-length rows n name (some _) cols c full h = full name c h
  add_attr-length rows n name none cols c full h =
      by_test (bytes_eq n name) (rw (lookup-insert n name (replicate rows none) cols) at h)
    where
      by_test :
          (b : Bool)
          → (if b then some (replicate rows none) else Assoc.lookup name cols) ≡ some c
          → length c ≡ rows
      by_test true e =
          let is_c : replicate rows none ≡ c = cc in rw (← is_c) (length-replicate rows none)
      by_test false e = full name c e

  pub add_attrs-length :
      (rows : ℕ) (attrs : Assoc (Option AttributeValue)) (cols : Assoc AttrCol)
      → ((k : Bytes) (d : AttrCol) → Assoc.lookup k cols ≡ some d → length d ≡ rows)
      → (name : Bytes) (c : AttrCol)
      → Assoc.lookup name (add_attrs numbers kernels rows attrs cols) ≡ some c
      → length c ≡ rows
  unfolding add_attrs
  add_attrs-length rows [] cols full name c h = full name c h
  add_attrs-length rows ((n, none) ∷ attrs) cols full name c h =
      add_attrs-length rows attrs cols full name c h
  add_attrs-length rows ((n, some v) ∷ attrs) cols full name c h =
      add_attrs-length rows attrs (add_attr numbers kernels rows n (Assoc.lookup n cols) cols)
        (λ k d e. add_attr-length rows n k (Assoc.lookup n cols) cols d full e) name c h
