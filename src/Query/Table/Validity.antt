-- ===== src/Query/Table/Validity.antt =====
-- Well-formed tables: every column has as many rows as the table, and the index names its rows.
pub mod Columns
pub mod Upserts
pub mod Rows
use cloudy_neigh.Prelude.{
  ℕ, ◌+◌, ◌*◌, ◌≤◌, ◌<◌, ◌≡◌, refl, sym, ap, ◌∙◌, Bool, true, false, Option, none, some, List, [],
  ◌∷◌, ◌++◌, Bytes, bytes_eq, bytes_eq_iff, length, length-append, length-replicate, replicate,
  is_empty, if◌then◌else◌, Error, Result, ok, err, ◌⊎◌, inl, inr, Bool-cases, Option-cases,
  Result-cases, arith,
}
use cloudy_neigh.Prelude.Assoc
use cloudy_neigh.Prelude.Assoc.{Assoc, lookup-insert}
use cloudy_neigh.Ingest.Messages.{Float, AttributeValue}
use cloudy_neigh.Query.Numbers.{Arithmetic, Kernels}
use cloudy_neigh.Query.Table.{
  Table, FlatVectorCol, AttrCol, StagedVector, at_or, set, map_values, new_table, is16,
}

module _ (numbers : Arithmetic) (kernels : Kernels) where
  -- The cells of a column of vectors of a width: as halves, or as they are.
  abbrev pub Filled : Bool → ℕ → ℕ → List Float → Option (List ℕ) → Type 0
  Filled true n dim values data16 = (d : List ℕ) × (data16 ≡ some d) × (length d ≡ n * dim)
  Filled false n dim values data16 = (data16 ≡ none) × (length values ≡ n * dim)

  -- A column of `n` rows.
  pub record IsCol (n : ℕ) (c : FlatVectorCol) : Type 0 where
    pub marks : length c.has_vec ≡ n
    pub norms : length c.inv_norms ≡ n
    pub cells : Filled (is16 numbers kernels) n c.dim c.values c.data16

  pub record IsValid (t : Table) : Type 0 where
    pub ids : length t.doc_ids ≡ t.num_rows
    pub marks : length t.tombstones ≡ t.num_rows
    pub rows :
        (id : Bytes) (row : ℕ)
        → Assoc.lookup id t.index ≡ some row
        → (row < t.num_rows) × (at_or [] row t.doc_ids ≡ id)
    pub cols :
        (name : Bytes) (c : FlatVectorCol)
        → Assoc.lookup name t.vectors ≡ some c
        → IsCol t.num_rows c
    pub attr_cols :
        (name : Bytes) (c : AttrCol) → Assoc.lookup name t.attrs ≡ some c → length c ≡ t.num_rows

  pub IsValid-new : IsValid new_table
  unfolding Assoc.lookup
  IsValid-new = record {
    ids = refl;
    marks = refl;
    rows = λ id row h. cc;
    cols = λ name c h. cc;
    attr_cols = λ name c h. cc;
  }
