-- ===== src/Query/Table/Validity/Upserts.antt =====
-- An upsert keeps a table well formed.
use cloudy_neigh.Prelude.{
  ℕ, ◌+◌, ◌*◌, ◌≡◌, refl, sym, ap, ◌∙◌, Bool, true, false, Option, none, some, List, [], ◌∷◌, ◌++◌,
  length, length-append, length-replicate, replicate, if◌then◌else◌, ok, ◌⊎◌, inl, inr, arith,
}
use cloudy_neigh.Ingest.Messages.{Float}
use cloudy_neigh.Query.Numbers.{Arithmetic, Kernels}
use cloudy_neigh.Query.Table.{
  FlatVectorCol, StagedVector, copy_at, is16, check_dim, staged_halves, fresh_col, clear_vec,
  halves_at, write_vec, halves_then, append_vec,
}
use cloudy_neigh.Query.Table.Slices.{length-set, length-copy_at, over}
use cloudy_neigh.Query.Table.Validity.{IsCol, Filled}
use cloudy_neigh.Query.Table.Validity.Columns.{Staged, or_fresh, length-encode_fp16, check_dim-ok}

pub over-some :
    {V W : Type 0} (f : V → W) (o : Option V) (w : W)
    → over f o ≡ some w
    → (v : V) × (o ≡ some v) × (f v ≡ w)
over-some f none w h = cc
over-some f (some v) w h = (v, refl, cc)

module _ (numbers : Arithmetic) (kernels : Kernels) where
  -- A staged vector that fits a column.
  pub record Fits (sv : StagedVector) (c : FlatVectorCol) : Type 0 where
    pub width : length sv.values ≡ c.dim
    pub halves : (is16 numbers kernels ≡ false) ⊎ (length sv.data16 ≡ c.dim)

  abbrev pub FitsIfAny : Option StagedVector → FlatVectorCol → Type 0
  FitsIfAny none c = Unit
  FitsIfAny (some sv) c = Fits sv c

  clear_vec-IsCol :
      (dead : Bool) (n row : ℕ) (c : FlatVectorCol)
      → IsCol numbers kernels n c
      → IsCol numbers kernels n (clear_vec numbers kernels dead row c)
  clear_vec-IsCol false n row c v = v
  clear_vec-IsCol true n row c v = record {
    marks = length-set row false c.has_vec ∙ v.marks;
    norms = length-set row _ c.inv_norms ∙ v.norms;
    cells = v.cells;
  }

  write-Filled :
      (b : Bool) (n row dim : ℕ) (sv : StagedVector) (values : List Float)
      (data16 : Option (List ℕ))
      → Filled numbers kernels b n dim values data16
      → Filled numbers kernels b n dim
          (if b then values else copy_at (row * dim) sv.values values)
          (if b then halves_at numbers kernels (row * dim) sv.data16 data16 else data16)
  write-Filled false n row dim sv values data16 (e, k) =
      (e, length-copy_at (row * dim) sv.values values ∙ k)
  write-Filled true n row dim sv values data16 (d, e, k) =
      (copy_at (row * dim) sv.data16 d, rw e refl, length-copy_at (row * dim) sv.data16 d ∙ k)

  pub write_vec-IsCol :
      (dead : Bool) (n row : ℕ) (o : Option StagedVector) (c : FlatVectorCol)
      → IsCol numbers kernels n c
      → IsCol numbers kernels n (write_vec numbers kernels dead row o c)
  write_vec-IsCol dead n row none c v = clear_vec-IsCol dead n row c v
  write_vec-IsCol dead n row (some sv) c v = record {
    marks = length-set row true c.has_vec ∙ v.marks;
    norms = length-set row sv.inv_norm c.inv_norms ∙ v.norms;
    cells = write-Filled (is16 numbers kernels) n row c.dim sv c.values c.data16 v.cells;
  }

  append-Filled :
      (b : Bool) (n dim : ℕ) (new values : List Float) (new16 : List ℕ) (data16 : Option (List ℕ))
      → length new ≡ dim
      → (b ≡ false) ⊎ (length new16 ≡ dim)
      → Filled numbers kernels b n dim values data16
      → Filled numbers kernels b
          (n + 1)
          dim
          (if b then values else values ++ new)
          (if b then halves_then numbers kernels new16 data16 else data16)
  append-Filled false n dim new values new16 data16 w h (e, k) =
      (e, length-append values new ∙ omega arith)
  append-Filled true n dim new values new16 data16 w (inl h) (d, e, k) = cc
  append-Filled true n dim new values new16 data16 w (inr h) (d, e, k) =
      (d ++ new16, rw e refl, length-append d new16 ∙ omega arith)

  pub append_vec-IsCol :
      (n : ℕ) (o : Option StagedVector) (c : FlatVectorCol)
      → FitsIfAny o c
      → IsCol numbers kernels n c
      → IsCol numbers kernels (n + 1) (append_vec numbers kernels o c)
  append_vec-IsCol n none c fits v = record {
    marks = omega (arith, length-append c.has_vec (false ∷ []), v.marks);
    norms = omega (arith, length-append c.inv_norms (numbers.zero_value ∷ []), v.norms);
    cells =
        append-Filled (is16 numbers kernels) n c.dim (replicate c.dim numbers.zero_value) c.values
          (replicate c.dim 0) c.data16 (length-replicate c.dim numbers.zero_value)
          (inr (length-replicate c.dim 0)) v.cells;
  }
  append_vec-IsCol n (some sv) c fits v = record {
    marks = omega (arith, length-append c.has_vec (true ∷ []), v.marks);
    norms = omega (arith, length-append c.inv_norms (sv.inv_norm ∷ []), v.norms);
    cells =
        append-Filled (is16 numbers kernels) n c.dim sv.values c.values sv.data16 c.data16
          fits.width fits.halves v.cells;
  }

  fresh-Filled :
      (b : Bool) (n dim : ℕ)
      → Filled numbers kernels b n dim
          (if b then [] else replicate (n * dim) numbers.zero_value)
          (if b then some (replicate (n * dim) 0) else none)
  fresh-Filled true n dim = (replicate (n * dim) 0, refl, length-replicate (n * dim) 0)
  fresh-Filled false n dim = (refl, length-replicate (n * dim) numbers.zero_value)

  fresh_col-IsCol : (n dim : ℕ) → IsCol numbers kernels n (fresh_col numbers kernels n dim)
  fresh_col-IsCol n dim = record {
    marks = length-replicate n false;
    norms = length-replicate n numbers.zero_value;
    cells = fresh-Filled (is16 numbers kernels) n dim;
  }

  Staged-halves :
      (b : Bool) (vec : List Float) (d : List ℕ)
      → staged_halves numbers kernels b vec ≡ ok d
      → (b ≡ false) ⊎ (length d ≡ length vec)
  Staged-halves true vec d h = inr (length-encode_fp16 vec d h)
  Staged-halves false vec d h = inl refl

  Staged-Fits :
      (vec : List Float) (sv : StagedVector) (dim : ℕ)
      → Staged numbers kernels vec sv
      → length sv.values ≡ dim
      → (is16 numbers kernels ≡ false) ⊎ (length sv.data16 ≡ dim)
  Staged-Fits vec sv dim st w =
      elim (Staged-halves (is16 numbers kernels) vec sv.data16 st.halves) [
        | inl whole ↦ inl whole
        | inr k ↦ inr (k ∙ sym (ap length st.same) ∙ w)
      ]

  -- A column of the table with the columns for what is staged.
  pub or_fresh-IsCol :
      (n : ℕ) (o : Option FlatVectorCol) (s : Option StagedVector) (c : FlatVectorCol)
      → ((d : FlatVectorCol) → o ≡ some d → IsCol numbers kernels n d)
      → ((sv : StagedVector)
          → s ≡ some sv
          → (vec : List Float) × Staged numbers kernels vec sv × (check_dim (length vec) o ≡ ok tt))
      → or_fresh numbers kernels n o s ≡ some c
      → IsCol numbers kernels n c × FitsIfAny s c
  or_fresh-IsCol n (some d) none c cols fit h =
      let same : d ≡ c = cc in (rw same at (cols d refl), tt)
  or_fresh-IsCol n (some d) (some sv) c cols fit h =
      let same : d ≡ c = cc in
      let (vec, st, checked) = fit sv refl in
      let width : length sv.values ≡ d.dim =
        ap length st.same ∙ sym (check_dim-ok numbers kernels (length vec) d checked) in
      (
        rw same at (cols d refl),
        rw (← same) (record { width = width; halves = Staged-Fits vec sv d.dim st width }),
      )
  or_fresh-IsCol n none none c cols fit h = cc
  or_fresh-IsCol n none (some sv) c cols fit h =
      let same : fresh_col numbers kernels n (length sv.values) ≡ c = cc in
      let (vec, st, checked) = fit sv refl in
      (
        rw (← same) (fresh_col-IsCol n (length sv.values)),
        rw (← same)
            (record { width = refl; halves = Staged-Fits vec sv (length sv.values) st refl }),
      )
