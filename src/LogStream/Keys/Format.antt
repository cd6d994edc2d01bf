-- ===== src/LogStream/Keys/Format.antt =====
-- The keys of a log are in the order of their numbers, and a number is read back from its key.
use cloudy_neigh.Prelude.{
  ℕ, zero, suc, ◌+◌, ◌-◌, ◌*◌, ◌/◌, ◌%◌, ◌^◌, ◌≤◌, ◌<◌, ◌≡◌, ◌≢◌, refl, ap, ap₂, ◌∙◌, ◌&&◌, ◌||◌,
  Option, none, some, [], ◌∷◌, ◌++◌, Bytes, length, ltb, ◌==◌, bytes_eq_refl, bytes_lt,
  bytes_lt-append, bytes_lt_irrefl, is_empty, codes, if◌then◌else◌, ok, arith, All, length-append,
  take-append, drop-append, append_assoc, All-append, lt→ltb,
}
use cloudy_neigh.LogStream.Keys.{
  decimal, suffix, segment_key, strip_slashes, after_slash, base, parse_decimal, parse_seq,
}

length-decimal : (k n : ℕ) → length (decimal k n) ≡ k
unfolding decimal
length-decimal zero n = refl
length-decimal (suc k) n =
    omega
      (arith, length-append (decimal k (n / 10)) ((b'0' + n % 10) ∷ []), length-decimal k (n / 10))

abbrev IsDigit : ℕ → Type 0
IsDigit c = (b'0' ≤ c) × (c ≤ b'9')

decimal-IsDigit : (k n : ℕ) → All IsDigit (decimal k n)
unfolding decimal
decimal-IsDigit zero n = tt
decimal-IsDigit (suc k) n =
    All-append IsDigit (decimal k (n / 10)) ((b'0' + n % 10) ∷ []) (decimal-IsDigit k (n / 10))
      (omega arith)

abbrev bind : Option ℕ → (ℕ → Option ℕ) → Option ℕ
bind none f = none
bind (some a) f = f a

parse_decimal-append :
    (s t : Bytes) (acc : ℕ)
    → parse_decimal (s ++ t) acc ≡ bind (parse_decimal s acc) (parse_decimal t)
unfolding parse_decimal
parse_decimal-append [] t acc = refl
parse_decimal-append (c ∷ s) t acc =
    ground (arith, parse_decimal-append s t (acc * 10 + (c - b'0')))

-- Digits that are written read back.
parse_decimal-decimal : (k n : ℕ) → n < 10 ^ k → parse_decimal (decimal k n) 0 ≡ some n
unfolding decimal parse_decimal
parse_decimal-decimal zero n h = ap some (omega arith)
parse_decimal-decimal (suc k) n h =
    parse_decimal-append (decimal k (n / 10)) ((b'0' + n % 10) ∷ []) 0
    ∙ ap (λ o. bind o (parse_decimal ((b'0' + n % 10) ∷ [])))
        (parse_decimal-decimal k (n / 10) (omega arith))
    ∙ ground arith

abbrev NoSlash : ℕ → Type 0
NoSlash c = c ≢ b'/'

after_slash-NoSlash : (found s : Bytes) → All NoSlash s → after_slash found s ≡ found
unfolding after_slash
after_slash-NoSlash found [] h = refl
after_slash-NoSlash found (c ∷ s) (h, hs) = ground (arith, after_slash-NoSlash found s hs)

after_slash-append : (found p s : Bytes) → All NoSlash s → after_slash found (p ++ (b'/' ∷ s)) ≡ s
unfolding after_slash
after_slash-append found [] s h = after_slash-NoSlash s s h
after_slash-append found (c ∷ p) s h =
    after_slash-append (if c == b'/' then p ++ (b'/' ∷ s) else found) p s h

digits-NoSlash : (s : Bytes) → All IsDigit s → All NoSlash s
digits-NoSlash [] h = tt
digits-NoSlash (c ∷ s) (h, hs) = (ground arith, digits-NoSlash s hs)

strip_slashes-end : (p : Bytes) (c : ℕ) → c ≢ b'/' → strip_slashes (p ++ (c ∷ [])) ≡ p ++ (c ∷ [])
unfolding strip_slashes is_empty
strip_slashes-end [] c h = ground arith
strip_slashes-end (x ∷ p) c h = rw (strip_slashes-end p c h) (not_empty p)
  where
    not_empty :
        (p : Bytes)
        → (if x == b'/' && is_empty (p ++ (c ∷ [])) then [] else x ∷ (p ++ (c ∷ [])))
          ≡ x ∷ (p ++ (c ∷ []))
    not_empty [] = ground arith
    not_empty (y ∷ p) = ground arith

module _ (prefix : Bytes) (seq : ℕ) where
  strip_slashes-segment_key : strip_slashes (segment_key prefix seq) ≡ segment_key prefix seq
  unfolding segment_key
  strip_slashes-segment_key =
      let front = prefix ++ (b'/' ∷ (decimal 20 seq ++ codes ".recordi")) in
      let whole : front ++ (b'o' ∷ []) ≡ prefix ++ (b'/' ∷ (decimal 20 seq ++ suffix)) =
        simp append_assoc in
      rw whole at (strip_slashes-end front b'o' (omega arith))

  base-segment_key : base (segment_key prefix seq) ≡ decimal 20 seq ++ suffix
  unfolding base
  base-segment_key = rw strip_slashes-segment_key (
      unfold segment_key in
      after_slash-append (prefix ++ (b'/' ∷ (decimal 20 seq ++ suffix))) prefix
        (decimal 20 seq ++ suffix)
        (All-append NoSlash (decimal 20 seq) suffix
          (digits-NoSlash (decimal 20 seq) (decimal-IsDigit 20 seq)) (omega arith)))

  -- The number of a batch is read back from the key of its object.
  pub parse_seq-segment_key : 0 < seq → seq < 2 ^ 64 → parse_seq (segment_key prefix seq) ≡ ok seq
  unfolding parse_seq
  parse_seq-segment_key lo hi = rw base-segment_key (
      rw (length-append (decimal 20 seq) suffix, length-decimal 20 seq)
        (rw
          (
            take-append 20 (decimal 20 seq) suffix (length-decimal 20 seq),
            drop-append 20 (decimal 20 seq) suffix (length-decimal 20 seq),
          )
          (rw (parse_decimal-decimal 20 seq (omega arith), length-decimal 20 seq)
            (rw (bytes_eq_refl suffix, lt→ltb seq (2 ^ 64) hi) (ground arith)))))

decimal_order :
    (k m n : ℕ) (x y : Bytes)
    → m < 10 ^ k
    → n < 10 ^ k
    → bytes_lt (decimal k m ++ x) (decimal k n ++ y) ≡ (ltb m n || (m == n && bytes_lt x y))
unfolding decimal
decimal_order zero m n x y hm hn = ground arith
decimal_order (suc k) m n x y hm hn =
    ap₂ (λ a b. bytes_lt a b) (append_assoc (decimal k (m / 10)) ((b'0' + m % 10) ∷ []) x)
      (append_assoc (decimal k (n / 10)) ((b'0' + n % 10) ∷ []) y)
    ∙ decimal_order k (m / 10) (n / 10) ((b'0' + m % 10) ∷ x) ((b'0' + n % 10) ∷ y) (omega arith)
        (omega arith)
    ∙ (unfold bytes_lt in ground arith)

-- The order of the keys is the order of the numbers.
pub bytes_lt-segment_key :
    (prefix : Bytes) (m n : ℕ)
    → m < 2 ^ 64
    → n < 2 ^ 64
    → bytes_lt (segment_key prefix m) (segment_key prefix n) ≡ ltb m n
unfolding segment_key
bytes_lt-segment_key prefix m n hm hn =
    bytes_lt-append prefix _ _
    ∙ bytes_lt-append (b'/' ∷ []) _ _
    ∙ decimal_order 20 m n suffix suffix (omega arith) (omega arith)
    ∙ rw (bytes_lt_irrefl suffix) (ground arith)
