-- ===== src/Query/Table.antt =====
-- query/table.go: the table of a branch, a row for each document, in columns. An index that is out of
-- range, at which the source panics, leaves a list as it is here, and reads a default; in a table that
-- is well formed there is none.
pub mod Slices
pub mod Validity
pub mod Reads
use cloudy_neigh.Prelude.{
  ℕ, zero, suc, ◌+◌, ◌*◌, Bool, true, false, ◌&&◌, ◌||◌, not, Option, none, some, List, [], ◌∷◌,
  ◌++◌, Bytes, length, take, drop, replicate, is_empty, ltb, ◌==◌, if◌then◌else◌, Error, Result, ok,
  err, ◌>>=◌, empty_doc_id, dimension_mismatch, nil_vector, nil_record,
}
use cloudy_neigh.Prelude.Assoc
use cloudy_neigh.Prelude.Assoc.{Assoc}
use cloudy_neigh.Ingest.Messages.{Float, AttributeValue, Record}
use cloudy_neigh.Vector.Half.{encode_fp16}
use cloudy_neigh.Query.Numbers.{Arithmetic, Kernels, HalfKernels, vector_inv_norm}

module _ {ℓ} {A : Type ℓ} where
  -- xs[i]
  abbrev pub at_or : A → ℕ → List A → A
  at_or default i [] = default
  at_or default zero (x ∷ xs) = x
  at_or default (suc i) (x ∷ xs) = at_or default i xs

  -- xs[i] = a
  abbrev pub set : ℕ → A → List A → List A
  set i a [] = []
  set zero a (x ∷ xs) = a ∷ xs
  set (suc i) a (x ∷ xs) = x ∷ set i a xs

  -- copy(dst[offset:], src)
  abbrev pub copy_at : ℕ → List A → List A → List A
  copy_at offset src [] = []
  copy_at zero [] (d ∷ dst) = d ∷ dst
  copy_at zero (s ∷ src) (d ∷ dst) = s ∷ copy_at zero src dst
  copy_at (suc offset) src (d ∷ dst) = d ∷ copy_at offset src dst

  -- xs[offset:offset+n]
  abbrev pub slice : ℕ → ℕ → List A → List A
  slice offset n xs = take n (drop offset xs)

-- An entry for each key, from the key and its value.
abbrev pub map_values {ℓ κ} : {V : Type ℓ} {W : Type κ} → (Bytes → V → W) → Assoc V → Assoc W
map_values f [] = []
map_values f ((k, v) ∷ m) = (k, f k v) ∷ map_values f m

-- flatVectorCol, with `data` as `values`; `data16` may be nil.
pub record FlatVectorCol : Type 0 where
  pub dim : ℕ
  pub values : List Float
  pub data16 : Option (List ℕ)
  pub has_vec : List Bool
  pub inv_norms : List Float

-- A column of attributes, whose values may be nil.
abbrev pub AttrCol : Type 0
AttrCol = List (Option AttributeValue)

pub record Table : Type 0 where
  pub num_rows : ℕ
  pub doc_ids : List Bytes
  pub index : Assoc ℕ
  pub tombstones : List Bool
  pub vectors : Assoc FlatVectorCol
  pub attrs : Assoc AttrCol

pub record StagedVector : Type 0 where
  pub values : List Float
  pub data16 : List ℕ
  pub inv_norm : Float

-- NewTable
abbrev pub new_table : Table
new_table = record {
  num_rows = 0;
  doc_ids = [];
  index = [];
  tombstones = [];
  vectors = [];
  attrs = [];
}

-- if vCol, ok := t.vectors[col]; ok && len(vec) != vCol.dim
abbrev pub check_dim : ℕ → Option FlatVectorCol → Result (Unit {0})
check_dim n none = ok tt
check_dim n (some c) = if c.dim == n then ok tt else err dimension_mismatch

-- Whether a key has a value that is not nil.
abbrev pub given : Option (Option AttributeValue) → Option AttributeValue
given none = none
given (some v) = v

module _ (numbers : Arithmetic) (kernels : Kernels) where
  -- is16 := t.kernels.Dot16 != nil
  abbrev pub is16 : Bool
  is16 = elim kernels.half [ none ↦ false | some h ↦ true ]

  -- The halves of a vector, if the kernels take them.
  abbrev pub staged_halves : Bool → List Float → Result (List ℕ)
  staged_halves true vec = encode_fp16 vec
  staged_halves false vec = ok []

  abbrev pub stage_vector : Option FlatVectorCol → List Float → Result StagedVector
  stage_vector col vec = check_dim (length vec) col >>= λ _.
      (staged_halves is16 vec >>= λ halves.
      ok (record { values = vec; data16 = halves; inv_norm = vector_inv_norm numbers vec }))

  -- The vectors that are not empty, checked against their columns.
  unfoldable pub stage : Assoc FlatVectorCol → Assoc (List Float) → Result (Assoc StagedVector)
  stage cols [] = ok []
  stage cols ((name, []) ∷ vecs) = stage cols vecs
  stage cols ((name, x ∷ vec) ∷ vecs) =
      let rest = stage cols vecs in
      stage_vector (Assoc.lookup name cols) (x ∷ vec) >>= λ sv.
      (rest >>= λ staged. ok ((name, sv) ∷ staged))

  -- A column for the rows that are there, which have no vector in it.
  abbrev pub fresh_col : ℕ → ℕ → FlatVectorCol
  fresh_col rows dim = record {
    dim = dim;
    values = if is16 then [] else replicate (rows * dim) numbers.zero_value;
    data16 = if is16 then some (replicate (rows * dim) 0) else none;
    has_vec = replicate rows false;
    inv_norms = replicate rows numbers.zero_value;
  }

  abbrev pub add_col :
      ℕ → Bytes → StagedVector → Option FlatVectorCol → Assoc FlatVectorCol → Assoc FlatVectorCol
  add_col rows name sv none cols = Assoc.insert name (fresh_col rows (length sv.values)) cols
  add_col rows name sv (some c) cols = cols

  -- The columns of the staged vectors, made where they are missing.
  unfoldable pub add_cols : ℕ → Assoc StagedVector → Assoc FlatVectorCol → Assoc FlatVectorCol
  add_cols rows [] cols = cols
  add_cols rows ((name, sv) ∷ staged) cols =
      add_cols rows staged (add_col rows name sv (Assoc.lookup name cols) cols)

  abbrev pub add_attr : ℕ → Bytes → Option AttrCol → Assoc AttrCol → Assoc AttrCol
  add_attr rows name none cols = Assoc.insert name (replicate rows none) cols
  add_attr rows name (some c) cols = cols

  -- The columns of the attributes that are not nil, made where they are missing.
  unfoldable pub add_attrs : ℕ → Assoc (Option AttributeValue) → Assoc AttrCol → Assoc AttrCol
  add_attrs rows [] cols = cols
  add_attrs rows ((name, none) ∷ attrs) cols = add_attrs rows attrs cols
  add_attrs rows ((name, some v) ∷ attrs) cols =
      add_attrs rows attrs (add_attr rows name (Assoc.lookup name cols) cols)

  -- A row that is there: what it held before its document was deleted is forgotten, and the vectors
  -- and attributes that are given replace those of the row.
  abbrev pub clear_vec : Bool → ℕ → FlatVectorCol → FlatVectorCol
  clear_vec false row c = c
  clear_vec true row c = record c {
    has_vec = set row false c.has_vec;
    inv_norms = set row numbers.zero_value c.inv_norms;
  }

  abbrev pub halves_at : ℕ → List ℕ → Option (List ℕ) → Option (List ℕ)
  halves_at offset new none = none
  halves_at offset new (some d) = some (copy_at offset new d)

  abbrev pub write_vec : Bool → ℕ → Option StagedVector → FlatVectorCol → FlatVectorCol
  write_vec dead row none c = clear_vec dead row c
  write_vec dead row (some sv) c = record c {
    values = if is16 then c.values else copy_at (row * c.dim) sv.values c.values;
    data16 = if is16 then halves_at (row * c.dim) sv.data16 c.data16 else c.data16;
    has_vec = set row true c.has_vec;
    inv_norms = set row sv.inv_norm c.inv_norms;
  }

  -- `none`: the key is not among the attributes; `some none`: its value is nil.
  abbrev pub write_attr : Bool → ℕ → Option (Option AttributeValue) → AttrCol → AttrCol
  write_attr dead row (some (some v)) c = set row (some v) c
  write_attr dead row (some none) c = c
  write_attr dead row none c = if dead then set row none c else c

  abbrev pub update_row : ℕ → Assoc StagedVector → Assoc (Option AttributeValue) → Table → Table
  update_row row staged attrs t =
      let dead = at_or false row t.tombstones in
      record t {
        tombstones = set row false t.tombstones;
        vectors = map_values (λ name c. write_vec dead row (Assoc.lookup name staged) c) t.vectors;
        attrs = map_values (λ name c. write_attr dead row (Assoc.lookup name attrs) c) t.attrs;
      }

  -- A new row, at the end of every column.
  abbrev pub halves_then : List ℕ → Option (List ℕ) → Option (List ℕ)
  halves_then new none = some new
  halves_then new (some d) = some (d ++ new)

  abbrev pub append_vec : Option StagedVector → FlatVectorCol → FlatVectorCol
  append_vec none c = record c {
    values = if is16 then c.values else c.values ++ replicate c.dim numbers.zero_value;
    data16 = if is16 then halves_then (replicate c.dim 0) c.data16 else c.data16;
    has_vec = c.has_vec ++ (false ∷ []);
    inv_norms = c.inv_norms ++ (numbers.zero_value ∷ []);
  }
  append_vec (some sv) c = record c {
    values = if is16 then c.values else c.values ++ sv.values;
    data16 = if is16 then halves_then sv.data16 c.data16 else c.data16;
    has_vec = c.has_vec ++ (true ∷ []);
    inv_norms = c.inv_norms ++ (sv.inv_norm ∷ []);
  }

  abbrev pub append_row : Bytes → Assoc StagedVector → Assoc (Option AttributeValue) → Table → Table
  append_row id staged attrs t = record {
    num_rows = t.num_rows + 1;
    doc_ids = t.doc_ids ++ (id ∷ []);
    index = Assoc.insert id t.num_rows t.index;
    tombstones = t.tombstones ++ (false ∷ []);
    vectors = map_values (λ name c. append_vec (Assoc.lookup name staged) c) t.vectors;
    attrs = map_values (λ name c. c ++ (given (Assoc.lookup name attrs) ∷ [])) t.attrs;
  }

  abbrev pub place :
      Bytes → Assoc StagedVector → Assoc (Option AttributeValue) → Option ℕ → Table → Table
  place id staged attrs (some row) t = update_row row staged attrs t
  place id staged attrs none t = append_row id staged attrs t

  abbrev pub with_cols : Assoc StagedVector → Assoc (Option AttributeValue) → Table → Table
  with_cols staged attrs t = record t {
    vectors = add_cols t.num_rows staged t.vectors;
    attrs = add_attrs t.num_rows attrs t.attrs;
  }

  -- Upsert; an error leaves the table as it was.
  unfoldable pub upsert :
      Bytes → Assoc (List Float) → Assoc (Option AttributeValue) → Table → Result Table
  upsert id vecs attrs t =
      if is_empty id
      then err empty_doc_id
      else (stage t.vectors vecs >>= λ staged.
          ok (place id staged attrs (Assoc.lookup id t.index) (with_cols staged attrs t)))

  -- The vectors of a record, none of them nil.
  abbrev pub values_of : Assoc (Option (List Float)) → Result (Assoc (List Float))
  values_of [] = ok []
  values_of ((name, none) ∷ vecs) = err nil_vector
  values_of ((name, some v) ∷ vecs) = values_of vecs >>= λ rest. ok ((name, v) ∷ rest)

  -- UpsertRecord; a record may be nil.
  unfoldable pub upsert_record : Option Record → Table → Result Table
  upsert_record none t = err nil_record
  upsert_record (some rec) t = values_of rec.vectors >>= λ vecs. upsert rec.id vecs rec.attributes t

  -- isTombstoned
  abbrev pub is_tombstoned : ℕ → Table → Bool
  is_tombstoned row t = at_or false row t.tombstones

  abbrev pub delete_found : Option ℕ → Table → Bool × Table
  delete_found none t = (false, t)
  delete_found (some row) t =
      if at_or false row t.tombstones
      then (false, t)
      else (true, record t { tombstones = set row true t.tombstones })

  -- Delete
  unfoldable pub delete : Bytes → Table → Bool × Table
  delete id t = delete_found (Assoc.lookup id t.index) t

  abbrev pub decoded : ℕ → FlatVectorCol → Option (List ℕ) → Option HalfKernels → List Float
  decoded row c none h = slice (row * c.dim) c.dim c.values
  decoded row c (some d) none = replicate c.dim numbers.zero_value
  decoded row c (some d) (some h) = h.decode16 (slice (row * c.dim) c.dim d)

  -- The vector of a row, if it has one.
  abbrev pub vector_at : ℕ → FlatVectorCol → Option (List Float)
  vector_at row c =
      if at_or false row c.has_vec then some (decoded row c c.data16 kernels.half) else none

  unfoldable pub vectors_at : ℕ → Assoc FlatVectorCol → Assoc (Option (List Float))
  vectors_at row [] = []
  vectors_at row ((name, c) ∷ cols) =
      let rest = vectors_at row cols in
      elim (vector_at row c) [ none ↦ rest | some v ↦ (name, some v) ∷ rest ]

  unfoldable pub attrs_at : ℕ → Assoc AttrCol → Assoc (Option AttributeValue)
  attrs_at row [] = []
  attrs_at row ((name, c) ∷ cols) =
      let rest = attrs_at row cols in
      elim (at_or none row c) [ none ↦ rest | some v ↦ (name, some v) ∷ rest ]

  -- recordAt
  abbrev pub record_at : ℕ → Bytes → Table → Record
  record_at row id t = record {
    id = id;
    vectors = vectors_at row t.vectors;
    attributes = attrs_at row t.attrs;
  }

  abbrev pub get_found : Bytes → Option ℕ → Table → Option Record
  get_found id none t = none
  get_found id (some row) t = if is_tombstoned row t then none else some (record_at row id t)

  -- Get
  unfoldable pub get : Bytes → Table → Option Record
  get id t = get_found id (Assoc.lookup id t.index) t
