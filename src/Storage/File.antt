-- ===== src/Storage/File.antt =====
-- Reading and seeking in an open file of src/HalStorage.cpp: `HalFile` over one descriptor, whole or through
-- the window of a container's entry.
use crosspoint_simulator_ios.Base.{
  ℕ, ◌+◌, ◌-◌, ◌%◌, ◌^◌, Bool, true, false, not, ◌&&◌, [], ◌∷◌, Option, none, some, if◌then◌else◌,
  ltb, leb, Bytes,
}

-- An offset of `lseek` that may be negative.
pub data Offset : Type 0 where
  ahead back : ℕ → Offset

-- The POSIX calls on an open descriptor: `lseek` from the start, from the current position and to the end,
-- the current position, and `read`, where `none` is an error.
pub record Descriptor : Type 1 where
  pub State : Type 0
  pub seek_set : ℕ → State → Bool × State
  pub seek_cur : Offset → State → Bool × State
  pub seek_end : State → ℕ × State
  pub tell : State → ℕ
  pub read : ℕ → State → Option Bytes × State

-- The fields `windowed`, `windowStart` and `windowLength` of `HalFile::Impl`.
pub record Window : Type 0 where
  pub windowed : Bool
  pub start : ℕ
  pub length : ℕ

-- The greatest `off_t`, and one more.
abbrev pub off_limit : ℕ
off_limit = 2 ^ 63

-- `static_cast<off_t>(n) > limit` for a limit that is not negative.
abbrev pub off_gt : ℕ → ℕ → Bool
off_gt n limit = ltb n off_limit && ltb limit n

module _ (d : Descriptor) where
  -- `HalFile::setWindow`
  unfoldable pub set_window : ℕ → ℕ → d.State → Window × Bool × d.State
  set_window offset length s =
      let sought = d.seek_set offset s in
      (record { windowed = true; start = offset; length = length }, sought.0, sought.1)

  -- `HalFile::position`; a position before the window is 0.
  unfoldable pub position : Window → d.State → ℕ
  position w s = if w.windowed then d.tell s - w.start else d.tell s

  -- `HalFile::size`
  unfoldable pub size : Window → d.State → ℕ × d.State
  size w s =
      let end = d.seek_end s in
      if w.windowed then (w.length, s) else (end.0, (d.seek_set (d.tell s) end.1).1)

  -- `HalFile::available`, as the bit pattern of an `int`.
  unfoldable pub available : Window → d.State → ℕ × d.State
  unfolding position
  available w s =
      let end = d.seek_end s in
      if w.windowed
      then ((w.length + 4294967296 - position w s % 4294967296) % 4294967296, s)
      else (
        (end.0 + 4294967296 - d.tell s % 4294967296) % 4294967296,
        (d.seek_set (d.tell s) end.1).1,
      )

  -- `lseek` to a sum whose second part was a `size_t` cast to `off_t`; a negative sum is an error.
  unfoldable pub seek_sum : ℕ → ℕ → d.State → Bool × d.State
  seek_sum base offset s =
      if ltb offset off_limit
      then d.seek_set (base + offset) s
      else if leb (2 ^ 64) (base + offset)
      then d.seek_set (base + offset - 2 ^ 64) s
      else (false, s)

  -- `HalFile::seekSet` and `seek` on a file.
  unfoldable pub seek_set : Window → ℕ → d.State → Bool × d.State
  unfolding seek_sum
  seek_set w offset s =
      if w.windowed
      then (if off_gt offset w.length then (false, s) else seek_sum w.start offset s)
      else seek_sum 0 offset s

  -- `HalFile::seek64`
  unfoldable pub seek64 : Window → ℕ → d.State → Bool × d.State
  unfolding seek_set
  seek64 w pos s =
      if w.windowed
      then (if leb pos w.length then seek_set w pos s else (false, s))
      else if ltb pos off_limit
      then d.seek_set pos s
      else (false, s)

  -- The window's branch of `HalFile::seekCur`.
  unfoldable pub seek_within : Window → Offset → d.State → Bool × d.State
  unfolding seek_set position
  seek_within w (Offset.ahead n) s = seek_set w (position w s + n) s
  seek_within w (Offset.back n) s =
      if leb n (position w s) then seek_set w (position w s - n) s else (false, s)

  -- `HalFile::seekCur`
  unfoldable pub seek_cur : Window → Offset → d.State → Bool × d.State
  unfolding seek_within
  seek_cur w offset s = if w.windowed then seek_within w offset s else d.seek_cur offset s

  -- `HalFile::read(void *, size_t)`
  unfoldable pub read : Window → ℕ → d.State → Option Bytes × d.State
  unfolding position
  read w count s =
      let left = w.length - position w s in
      if not w.windowed
      then d.read count s
      else if leb w.length (position w s)
      then (some [], s)
      else if off_gt count left
      then d.read left s
      else d.read count s

  -- `HalFile::read()`; `none` is -1.
  unfoldable pub read_byte : Window → d.State → Option ℕ × d.State
  unfolding position
  read_byte w s =
      let got = d.read 1 s in
      if w.windowed && leb w.length (position w s) then (none, s) else (
        elim got.0 [
          | some (b ∷ []) ↦ some b
          | some (b ∷ c ∷ cs) ↦ none
          | some [] ↦ none
          | none ↦ none
        ],
        got.1,
      )
