-- ===== src/Query/Table/Reads.antt =====
-- What is read behind a deletion and behind an upsert.
use cloudy_neigh.Prelude.{
  ℕ, ◌*◌, ◌<◌, ◌≡◌, ◌≢◌, refl, sym, ap, ◌∙◌, Bool, true, false, Option, none, some, List, [], ◌∷◌,
  ◌++◌, Bytes, bytes_eq, bytes_eq_iff, bytes_eq_refl, length, if◌then◌else◌, ok, ◌⊎◌, inl, inr,
  Bool-cases, arith,
}
use cloudy_neigh.Prelude.Assoc
use cloudy_neigh.Prelude.Assoc.{Assoc, lookup-insert}
use cloudy_neigh.Ingest.Messages.{Float, AttributeValue}
use cloudy_neigh.Vector.Half.{encode_fp16}
use cloudy_neigh.Query.Numbers.{Arithmetic, Kernels, HalfKernels}
use cloudy_neigh.Query.Table.{
  Table, FlatVectorCol, StagedVector, at_or, set, copy_at, slice, is16, staged_halves, halves_at,
  halves_then, write_vec, append_vec, place, with_cols, upsert, add_cols, delete, delete_found,
  decoded, vector_at, get, get_found, is_tombstoned,
}
use cloudy_neigh.Query.Table.Slices.{
  at_or-set, at_or-set_other, at_or-append_last, slice-copy_at, slice-append, row_le,
  lookup-map_values,
}
use cloudy_neigh.Query.Table.Validity.{IsValid, Filled}
use cloudy_neigh.Query.Table.Validity.Columns.{Staged, stage_found, lookup-add_cols, or_fresh}
use cloudy_neigh.Query.Table.Validity.Upserts.{Fits}
use cloudy_neigh.Query.Table.Validity.Rows.{with_cols-IsValid, upsert-ok}

module _ (numbers : Arithmetic) (kernels : Kernels) where
  abbrev marked : ℕ → Table → Table
  marked row t = record t { tombstones = set row true t.tombstones }

  -- A row that is marked as deleted, for its own document and for another.
  marked-get :
      (id other : Bytes) (row : ℕ) (o : Option ℕ) (t : Table)
      → IsValid numbers kernels t
      → Assoc.lookup id t.index ≡ some row
      → Assoc.lookup other t.index ≡ o
      → get_found numbers kernels other o (marked row t)
        ≡ (if bytes_eq id other then none else get_found numbers kernels other o t)
  marked-get id other row none t v e k = elim (Bool-cases (bytes_eq id other)) [
    | inl same ↦ rw same refl
    | inr no_other ↦ rw no_other refl
  ]
  marked-get id other row (some r) t v e k =
      let (low, at) = v.rows id row e in
      let (_, at') = v.rows other r k in
      elim (Bool-cases (bytes_eq id other)) [
        | inl same ↦
            let is_row : some row ≡ some r =
              sym e
              ∙ ap (λ (i : Bytes). Assoc.lookup i t.index) ((bytes_eq_iff id other).0 same)
              ∙ k in
            let same_row : row ≡ r = cc in
            let gone : at_or false r (set row true t.tombstones) ≡ true =
              ap (λ (i : ℕ). at_or false i (set row true t.tombstones)) (sym same_row)
              ∙ at_or-set false true row t.tombstones (omega (arith, low, v.marks)) in
            rw same (rw gone refl)
        | inr no_other ↦
            let differs : row ≢ r = λ same_row. ground (
              arith,
              bytes_eq_iff id other,
              sym at ∙ ap (λ (i : ℕ). at_or [] i t.doc_ids) same_row ∙ at',
            ) in
            rw no_other (rw (at_or-set_other false true row r t.tombstones differs) refl)
      ]

  delete_found-get :
      (id other : Bytes) (o : Option ℕ) (t : Table)
      → IsValid numbers kernels t
      → Assoc.lookup id t.index ≡ o
      → get numbers kernels other (delete_found numbers kernels o t).1
        ≡ (if bytes_eq id other then none else get numbers kernels other t)
  unfolding get
  delete_found-get id other none t v e = elim (Bool-cases (bytes_eq id other)) [
    | inl same ↦
        let at : Assoc.lookup other t.index ≡ none = rw ((bytes_eq_iff id other).0 same) at e in
        rw same (rw at refl)
    | inr no_other ↦ rw no_other refl
  ]
  delete_found-get id other (some row) t v e = elim (Bool-cases (at_or false row t.tombstones)) [
    | inr live ↦ rw live (marked-get id other row (Assoc.lookup other t.index) t v e refl)
    | inl dead ↦ rw dead (elim (Bool-cases (bytes_eq id other)) [
      | inl same ↦
          let at : Assoc.lookup other t.index ≡ some row =
            rw ((bytes_eq_iff id other).0 same) at e in
          rw same (rw at (rw dead refl))
      | inr no_other ↦ rw no_other refl
    ])
  ]

  -- In a well-formed table, a document that was deleted is not found, and every other document is
  -- found as before, or not found as before.
  pub get-delete :
      (id other : Bytes) (t : Table)
      → IsValid numbers kernels t
      → get numbers kernels other (delete numbers kernels id t).1
        ≡ (if bytes_eq id other then none else get numbers kernels other t)
  unfolding delete
  get-delete id other t v = delete_found-get id other (Assoc.lookup id t.index) t v refl

  -- What the table keeps of a vector: the vector, or the numbers that its halves stand for.
  abbrev pub Kept : Option HalfKernels → List Float → List Float → Type 0
  Kept none vec v = v ≡ vec
  Kept (some h) vec v = (d : List ℕ) × (encode_fp16 vec ≡ ok d) × (v ≡ h.decode16 d)

  -- The cells of a row, at the row's offset.
  abbrev HoldsAt : Bool → ℕ → ℕ → List Float → Option (List ℕ) → StagedVector → Type 0
  HoldsAt true row dim values data16 sv =
      (d : List ℕ) × (data16 ≡ some d) × (slice (row * dim) dim d ≡ sv.data16)
  HoldsAt false row dim values data16 sv =
      (data16 ≡ none) × (slice (row * dim) dim values ≡ sv.values)

  decoded-Kept :
      (h : Option HalfKernels) (vec : List Float) (row : ℕ) (sv : StagedVector) (c : FlatVectorCol)
      → sv.values ≡ vec
      → staged_halves numbers kernels (elim h [ none ↦ false | some _ ↦ true ]) vec ≡ ok sv.data16
      → HoldsAt (elim h [ none ↦ false | some _ ↦ true ]) row c.dim c.values c.data16 sv
      → Kept h vec (decoded numbers kernels row c c.data16 h)
  decoded-Kept none vec row sv c same halves (no_halves, at) = rw no_halves (at ∙ same)
  decoded-Kept (some k) vec row sv c same halves (d, is_d, at) =
      rw is_d (sv.data16, halves, ap k.decode16 at)

  vector_at-Kept :
      (vec : List Float) (row : ℕ) (sv : StagedVector) (c : FlatVectorCol)
      → Staged numbers kernels vec sv
      → HoldsAt (is16 numbers kernels) row c.dim c.values c.data16 sv
      → at_or false row c.has_vec ≡ true
      → (v : List Float) × (vector_at numbers kernels row c ≡ some v) × Kept kernels.half vec v
  vector_at-Kept vec row sv c st h marked = (
    decoded numbers kernels row c c.data16 kernels.half,
    rw marked refl,
    decoded-Kept kernels.half vec row sv c st.same st.halves h,
  )

  write-HoldsAt :
      (b : Bool) (n row dim : ℕ) (sv : StagedVector) (values : List Float)
      (data16 : Option (List ℕ))
      → row < n
      → length sv.values ≡ dim
      → (b ≡ false) ⊎ (length sv.data16 ≡ dim)
      → Filled numbers kernels b n dim values data16
      → HoldsAt b row dim
          (if b then values else copy_at (row * dim) sv.values values)
          (if b then halves_at numbers kernels (row * dim) sv.data16 data16 else data16)
          sv
  write-HoldsAt false n row dim sv values data16 low w h (e, k) =
      (e, slice-copy_at (row * dim) dim sv.values values w (omega (arith, row_le row n dim low)))
  write-HoldsAt true n row dim sv values data16 low w (inl h) (d, e, k) = cc
  write-HoldsAt true n row dim sv values data16 low w (inr h) (d, e, k) = (
    copy_at (row * dim) sv.data16 d,
    rw e refl,
    slice-copy_at (row * dim) dim sv.data16 d h (omega (arith, row_le row n dim low)),
  )

  append-HoldsAt :
      (b : Bool) (n dim : ℕ) (sv : StagedVector) (values : List Float) (data16 : Option (List ℕ))
      → length sv.values ≡ dim
      → (b ≡ false) ⊎ (length sv.data16 ≡ dim)
      → Filled numbers kernels b n dim values data16
      → HoldsAt b n dim
          (if b then values else values ++ sv.values)
          (if b then halves_then numbers kernels sv.data16 data16 else data16)
          sv
  append-HoldsAt false n dim sv values data16 w h (e, k) =
      (e, slice-append (n * dim) dim values sv.values k w)
  append-HoldsAt true n dim sv values data16 w (inl h) (d, e, k) = cc
  append-HoldsAt true n dim sv values data16 w (inr h) (d, e, k) =
      (d ++ sv.data16, rw e refl, slice-append (n * dim) dim d sv.data16 k h)

  -- The table holds, in a live row of the document, a vector in a column.
  pub record HasVector (id name : Bytes) (vec : List Float) (t : Table) : Type 0 where
    pub row : ℕ
    pub col : FlatVectorCol
    pub vector : List Float
    pub at_row : Assoc.lookup id t.index ≡ some row
    pub is_live : is_tombstoned numbers kernels row t ≡ false
    pub at_col : Assoc.lookup name t.vectors ≡ some col
    pub is_there : vector_at numbers kernels row col ≡ some vector
    pub is_kept : Kept kernels.half vec vector

  place-HasVector :
      (id name : Bytes) (vec : List Float) (sv : StagedVector) (c : FlatVectorCol)
      (staged : Assoc StagedVector) (attrs : Assoc (Option AttributeValue)) (o : Option ℕ)
      (t : Table)
      → Assoc.lookup name staged ≡ some sv
      → Assoc.lookup name t.vectors ≡ some c
      → Assoc.lookup id t.index ≡ o
      → Staged numbers kernels vec sv
      → Fits numbers kernels sv c
      → IsValid numbers kernels t
      → HasVector id name vec (place numbers kernels id staged attrs o t)
  place-HasVector id name vec sv c staged attrs (some r) t at_sv at_c at_id st fits v =
      let (low, _) = v.rows id r at_id in
      let dead = at_or false r t.tombstones in
      let col = v.cols name c at_c in
      let c' = write_vec numbers kernels dead r (some sv) c in
      let (x, there, kept) =
        vector_at-Kept vec r sv c' st
          (write-HoldsAt (is16 numbers kernels) t.num_rows r c.dim sv c.values c.data16 low
            fits.width fits.halves col.cells)
          (at_or-set false true r c.has_vec (omega (arith, low, col.marks))) in
      record {
        row = r;
        col = c';
        vector = x;
        at_row = at_id;
        is_live = at_or-set false false r t.tombstones (omega (arith, low, v.marks));
        at_col =
            lookup-map_values (λ n d. write_vec numbers kernels dead r (Assoc.lookup n staged) d)
              name t.vectors
            ∙ rw at_c (rw at_sv refl);
        is_there = there;
        is_kept = kept;
      }
  place-HasVector id name vec sv c staged attrs none t at_sv at_c at_id st fits v =
      let col = v.cols name c at_c in
      let c' = append_vec numbers kernels (some sv) c in
      let (x, there, kept) =
        vector_at-Kept vec t.num_rows sv c' st
          (append-HoldsAt (is16 numbers kernels) t.num_rows c.dim sv c.values c.data16 fits.width
            fits.halves col.cells)
          (at_or-append_last false true t.num_rows c.has_vec col.marks) in
      record {
        row = t.num_rows;
        col = c';
        vector = x;
        at_row = lookup-insert id id t.num_rows t.index ∙ rw (bytes_eq_refl id) refl;
        is_live = at_or-append_last false false t.num_rows t.tombstones v.marks;
        at_col =
            lookup-map_values (λ n d. append_vec numbers kernels (Assoc.lookup n staged) d) name
              t.vectors
            ∙ rw at_c (rw at_sv refl);
        is_there = there;
        is_kept = kept;
      }

  or_fresh-some :
      (n : ℕ) (o : Option FlatVectorCol) (sv : StagedVector)
      → (c : FlatVectorCol) × (or_fresh numbers kernels n o (some sv) ≡ some c)
  or_fresh-some n (some d) sv = (d, refl)
  or_fresh-some n none sv = (_, refl)

  -- Behind an upsert that succeeds on a well-formed table, the document has a live row, and each
  -- vector that was given and is not empty is read from its column in that row: the vector itself,
  -- or, with kernels of half precision, what its halves decode to.
  pub upsert-vector_at :
      (id name : Bytes) (x : Float) (vec : List Float) (vecs : Assoc (List Float))
      (attrs : Assoc (Option AttributeValue)) (t t' : Table)
      → IsValid numbers kernels t
      → Assoc.lookup name vecs ≡ some (x ∷ vec)
      → upsert numbers kernels id vecs attrs t ≡ ok t'
      → HasVector id name (x ∷ vec) t'
  upsert-vector_at id name x vec vecs attrs t t' v given h =
      let (staged, e, is_t') = upsert-ok numbers kernels id vecs attrs t t' h in
      let (sv, at_sv, st) = stage_found numbers kernels t.vectors vecs staged name x vec e given in
      let (v', fits) = with_cols-IsValid numbers kernels staged attrs vecs t e v in
      let (c, some_c) = or_fresh-some t.num_rows (Assoc.lookup name t.vectors) sv in
      let at_c : Assoc.lookup name (add_cols numbers kernels t.num_rows staged t.vectors) ≡ some c =
        lookup-add_cols numbers kernels t.num_rows staged t.vectors name
        ∙ ap (or_fresh numbers kernels t.num_rows (Assoc.lookup name t.vectors)) at_sv
        ∙ some_c in
      let fit : Fits numbers kernels sv c = rw at_sv at (fits name c at_c) in
      rw is_t' at (
        place-HasVector id name (x ∷ vec) sv c staged attrs (Assoc.lookup id t.index)
          (with_cols numbers kernels staged attrs t) at_sv at_c refl st fit v')
