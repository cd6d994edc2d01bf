-- ===== src/ObjectStore/Mem/Ranges.antt =====
-- Reads of a part of an object, with offsets and lengths that are int64 given by their bits.
use cloudy_neigh.Prelude.{
  ℕ, ◌+◌, ◌^◌, ◌≤◌, ◌<◌, ◌≡◌, none, some, Bytes, length, take, drop, arith, ok, err, panic,
  offset_exceeds_size, take-all, length-drop, ◌∙◌, ap, sym, ◌-◌,
}
use cloudy_neigh.Prelude.Assoc
use cloudy_neigh.ObjectStore.Mem.{MemStore, MemEntry, object_of, read_range}

-- An end behind the object's is as good as the object's.
take_clipped :
    (offset len : ℕ) (c : Bytes)
    → length c < offset + len
    → take (length c - offset) (drop offset c) ≡ take len (drop offset c)
take_clipped offset len c h =
    take-all (length c - offset) (drop offset c) (omega (arith, length-drop offset c))
    ∙ sym (take-all len (drop offset c) (omega (arith, length-drop offset c)))

take_within :
    (offset len : ℕ) (c : Bytes)
    → take (offset + len - offset) (drop offset c) ≡ take len (drop offset c)
take_within offset len c = ap (λ n. take n (drop offset c)) (omega arith)

module _ (key : Bytes) (offset len : ℕ) (m : MemStore) (e : MemEntry)
    (found : Assoc.lookup key m.objects ≡ some e) (off64 : offset < 2 ^ 63) (len64 : len < 2 ^ 63)
    (size64 : length e.content < 2 ^ 63) where
  -- A range that begins in the object returns the bytes from the offset on, as many as asked for or
  -- as there are, if the sum of offset and length is an int64.
  pub read_range_lem :
      offset + len < 2 ^ 63
      → offset ≤ length e.content
      → read_range none key offset len m ≡ ok (take len (drop offset e.content), object_of key e)
  unfolding read_range
  read_range_lem sum64 within =
      rw found (ground (arith, take_clipped offset len e.content, take_within offset len e.content))

  -- A range that begins behind the object is refused.
  pub read_range_behind :
      length e.content < offset → read_range none key offset len m ≡ err offset_exceeds_size
  unfolding read_range
  read_range_behind h = rw found (ground arith)

  -- A length that takes the sum out of int64 makes `ReadRange` panic, in an object that the range
  -- begins in.
  pub read_range_overflow :
      2 ^ 63 ≤ offset + len
      → offset ≤ length e.content
      → read_range none key offset len m ≡ err panic
  unfolding read_range
  read_range_overflow h within = rw found (ground arith)
