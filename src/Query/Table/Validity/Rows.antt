-- ===== src/Query/Table/Validity/Rows.antt =====
-- Upserts and deletions keep a table well formed.
use cloudy_neigh.Prelude.{
  ℕ, ◌+◌, ◌<◌, ◌≡◌, refl, sym, ap, ◌∙◌, Bool, true, false, Option, none, some, List, [], ◌∷◌, ◌++◌,
  Bytes, bytes_eq, bytes_eq_iff, length, length-append, is_empty, if◌then◌else◌, ok, inl, inr,
  Bool-cases, arith,
}
use cloudy_neigh.Prelude.Assoc
use cloudy_neigh.Prelude.Assoc.{Assoc, lookup-insert}
use cloudy_neigh.Ingest.Messages.{Float, AttributeValue}
use cloudy_neigh.Query.Numbers.{Arithmetic, Kernels}
use cloudy_neigh.Query.Table.{
  Table, FlatVectorCol, AttrCol, StagedVector, at_or, stage, write_vec, write_attr, update_row,
  append_vec, append_row, place, with_cols, upsert, add_cols, given, delete, delete_found,
}
use cloudy_neigh.Query.Table.Slices.{length-set, at_or-append, at_or-append_last, lookup-map_values}
use cloudy_neigh.Query.Table.Validity.{IsCol, IsValid}
use cloudy_neigh.Query.Table.Validity.Columns.{
  stage-Staged, lookup-add_cols, add_attrs-length, Result-step,
}
use cloudy_neigh.Query.Table.Validity.Upserts.{
  FitsIfAny, write_vec-IsCol, append_vec-IsCol, or_fresh-IsCol, over-some,
}

module _ (numbers : Arithmetic) (kernels : Kernels) where
  -- Each column has room for what is staged under its name.
  abbrev pub Fitting : Assoc StagedVector → Table → Type 0
  Fitting staged t =
      (name : Bytes) (c : FlatVectorCol)
      → Assoc.lookup name t.vectors ≡ some c
      → FitsIfAny numbers kernels (Assoc.lookup name staged) c

  pub with_cols-IsValid :
      (staged : Assoc StagedVector) (attrs : Assoc (Option AttributeValue))
      (vecs : Assoc (List Float)) (t : Table)
      → stage numbers kernels t.vectors vecs ≡ ok staged
      → IsValid numbers kernels t
      → IsValid numbers kernels (with_cols numbers kernels staged attrs t)
        × Fitting staged (with_cols numbers kernels staged attrs t)
  with_cols-IsValid staged attrs vecs t h v = (
    record {
      ids = v.ids;
      marks = v.marks;
      rows = v.rows;
      cols = λ name c e. (col name c e).0;
      attr_cols = add_attrs-length numbers kernels t.num_rows attrs t.attrs v.attr_cols;
    },
    λ name c e. (col name c e).1,
  )
    where
      col :
          (name : Bytes) (c : FlatVectorCol)
          → Assoc.lookup name (add_cols numbers kernels t.num_rows staged t.vectors) ≡ some c
          → IsCol numbers kernels t.num_rows c
            × FitsIfAny numbers kernels (Assoc.lookup name staged) c
      col name c e =
          or_fresh-IsCol numbers kernels t.num_rows (Assoc.lookup name t.vectors)
            (Assoc.lookup name staged) c (λ d at. v.cols name d at)
            (λ sv at. stage-Staged numbers kernels t.vectors vecs staged name sv h at)
            (sym (lookup-add_cols numbers kernels t.num_rows staged t.vectors name) ∙ e)

  write_attr-length :
      (dead : Bool) (row : ℕ) (o : Option (Option AttributeValue)) (c : AttrCol)
      → length (write_attr numbers kernels dead row o c) ≡ length c
  write_attr-length dead row (some (some v)) c = length-set row (some v) c
  write_attr-length dead row (some none) c = refl
  write_attr-length true row none c = length-set row none c
  write_attr-length false row none c = refl

  update_row-IsValid :
      (row : ℕ) (staged : Assoc StagedVector) (attrs : Assoc (Option AttributeValue)) (t : Table)
      → IsValid numbers kernels t
      → IsValid numbers kernels (update_row numbers kernels row staged attrs t)
  update_row-IsValid row staged attrs t v =
      let dead = at_or false row t.tombstones in
      record {
        ids = v.ids;
        marks = length-set row false t.tombstones ∙ v.marks;
        rows = v.rows;
        cols = λ name c e.
            let (d, at, is_c) = over-some _ (Assoc.lookup name t.vectors) c (
              sym (
                lookup-map_values
                  (λ n d. write_vec numbers kernels dead row (Assoc.lookup n staged) d) name
                  t.vectors)
              ∙ e) in
            rw is_c at (
              write_vec-IsCol numbers kernels dead t.num_rows row (Assoc.lookup name staged) d
                (v.cols name d at));
        attr_cols = λ name c e.
            let (d, at, is_c) = over-some _ (Assoc.lookup name t.attrs) c (
              sym (
                lookup-map_values
                  (λ n d. write_attr numbers kernels dead row (Assoc.lookup n attrs) d) name
                  t.attrs)
              ∙ e) in
            ap length (sym is_c)
            ∙ write_attr-length dead row (Assoc.lookup name attrs) d
            ∙ v.attr_cols name d at;
      }

  append_row-IsValid :
      (id : Bytes) (staged : Assoc StagedVector) (attrs : Assoc (Option AttributeValue)) (t : Table)
      → Fitting staged t
      → IsValid numbers kernels t
      → IsValid numbers kernels (append_row numbers kernels id staged attrs t)
  append_row-IsValid id staged attrs t fits v = record {
    ids = omega (arith, length-append t.doc_ids (id ∷ []), v.ids);
    marks = omega (arith, length-append t.tombstones (false ∷ []), v.marks);
    rows = λ k row e.
        named k row (bytes_eq id k) refl (sym (lookup-insert id k t.num_rows t.index) ∙ e);
    cols = λ name c e.
        let (d, at, is_c) = over-some _ (Assoc.lookup name t.vectors) c (
          sym (
            lookup-map_values (λ n d. append_vec numbers kernels (Assoc.lookup n staged) d) name
              t.vectors)
          ∙ e) in
        rw is_c at (
          append_vec-IsCol numbers kernels t.num_rows (Assoc.lookup name staged) d (fits name d at)
            (v.cols name d at));
    attr_cols = λ name c e.
        let (d, at, is_c) = over-some _ (Assoc.lookup name t.attrs) c (
          sym (lookup-map_values (λ n d. d ++ (given (Assoc.lookup n attrs) ∷ [])) name t.attrs)
          ∙ e) in
        ap length (sym is_c)
        ∙ omega
            (arith, length-append d (given (Assoc.lookup name attrs) ∷ []), v.attr_cols name d at);
  }
    where
      named :
          (k : Bytes) (row : ℕ) (b : Bool)
          → bytes_eq id k ≡ b
          → (if b then some t.num_rows else Assoc.lookup k t.index) ≡ some row
          → (row < t.num_rows + 1) × (at_or [] row (t.doc_ids ++ (id ∷ [])) ≡ k)
      named k row true same e =
          let is_row : t.num_rows ≡ row = cc in
          rw (← is_row) (
            omega arith,
            at_or-append_last [] id t.num_rows t.doc_ids v.ids ∙ (bytes_eq_iff id k).0 same,
          )
      named k row false other e =
          let (low, at) = v.rows k row e in
          (omega arith, at_or-append [] row t.doc_ids (id ∷ []) (omega (arith, low, v.ids)) ∙ at)

  place-IsValid :
      (id : Bytes) (staged : Assoc StagedVector) (attrs : Assoc (Option AttributeValue))
      (o : Option ℕ) (t : Table)
      → Fitting staged t
      → IsValid numbers kernels t
      → IsValid numbers kernels (place numbers kernels id staged attrs o t)
  place-IsValid id staged attrs (some row) t fits v = update_row-IsValid row staged attrs t v
  place-IsValid id staged attrs none t fits v = append_row-IsValid id staged attrs t fits v

  -- What an upsert that succeeds has done.
  pub upsert-ok :
      (id : Bytes) (vecs : Assoc (List Float)) (attrs : Assoc (Option AttributeValue))
      (t t' : Table)
      → upsert numbers kernels id vecs attrs t ≡ ok t'
      → (staged : Assoc StagedVector) × (stage numbers kernels t.vectors vecs ≡ ok staged)
        × (place numbers kernels id staged attrs
              (Assoc.lookup id t.index)
              (with_cols numbers kernels staged attrs t)
            ≡ t')
  unfolding upsert
  upsert-ok id vecs attrs t t' h = elim (Bool-cases (is_empty id)) [
    | inl bad ↦ absurd (ground arith)
    | inr named ↦
        let (staged, e, last) =
          Result-step (stage numbers kernels t.vectors vecs) _ t' (rw named at h) in
        (staged, e, cc)
  ]

  -- An upsert that succeeds keeps a table well formed: as many cells in every column as rows, and an
  -- index that names the rows.
  pub upsert-IsValid :
      (id : Bytes) (vecs : Assoc (List Float)) (attrs : Assoc (Option AttributeValue))
      (t t' : Table)
      → IsValid numbers kernels t
      → upsert numbers kernels id vecs attrs t ≡ ok t'
      → IsValid numbers kernels t'
  upsert-IsValid id vecs attrs t t' v h =
      let (staged, e, is_t') = upsert-ok id vecs attrs t t' h in
      let (v', fits) = with_cols-IsValid staged attrs vecs t e v in
      rw is_t' at (
        place-IsValid id staged attrs (Assoc.lookup id t.index)
          (with_cols numbers kernels staged attrs t) fits v')

  delete_found-IsValid :
      (o : Option ℕ) (t : Table)
      → IsValid numbers kernels t
      → IsValid numbers kernels (delete_found numbers kernels o t).1
  delete_found-IsValid none t v = v
  delete_found-IsValid (some row) t v = elim (Bool-cases (at_or false row t.tombstones)) [
    | inl dead ↦ rw dead v
    | inr live ↦ rw live (record {
      ids = v.ids;
      marks = length-set row true t.tombstones ∙ v.marks;
      rows = v.rows;
      cols = v.cols;
      attr_cols = v.attr_cols;
    })
  ]

  pub delete-IsValid :
      (id : Bytes) (t : Table)
      → IsValid numbers kernels t
      → IsValid numbers kernels (delete numbers kernels id t).1
  unfolding delete
  delete-IsValid id t v = delete_found-IsValid (Assoc.lookup id t.index) t v
