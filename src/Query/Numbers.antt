-- ===== src/Query/Numbers.antt =====
-- The arithmetic of float32, and the kernels that compute on vectors: parameters of the table.
use cloudy_neigh.Prelude.{ℕ, Bool, Option, List, [], ◌∷◌, if◌then◌else◌}
use cloudy_neigh.Ingest.Messages.{Float}

-- The operations of the language on float32 values.
pub record Arithmetic : Type 0 where
  pub zero_value : Float
  pub one_value : Float
  pub minus_one : Float
  pub add : Float → Float → Float
  pub subtract : Float → Float → Float
  pub multiply : Float → Float → Float
  -- float32(1 / math.Sqrt(float64(x)))
  pub inverse_root : Float → Float
  pub is_zero : Float → Bool
  pub less : Float → Float → Bool

-- The kernels on rows of half precision. The last one fills a slice of the same length.
pub record HalfKernels : Type 0 where
  pub dot16 : List Float → List ℕ → Float
  pub l216 : List Float → List ℕ → Float
  pub decode16 : List ℕ → List Float

-- vector.Kernels; those of half precision are there together, or not at all.
pub record Kernels : Type 0 where
  pub dot : List Float → List Float → Float
  pub l2 : List Float → List Float → Float
  pub half : Option HalfKernels

module _ (numbers : Arithmetic) where
  abbrev pub norm_sq : List Float → Float → Float
  norm_sq [] sum = sum
  norm_sq (x ∷ xs) sum = norm_sq xs (numbers.add sum (numbers.multiply x x))

  -- vectorInvNorm
  unfoldable pub vector_inv_norm : List Float → Float
  vector_inv_norm v =
      let n = norm_sq v numbers.zero_value in
      if numbers.is_zero n then numbers.zero_value else numbers.inverse_root n
