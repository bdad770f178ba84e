-- ===== src/Msp43x/Loader/Laws.antt =====
-- What `LoadHex` stores, for an image whose records are well formed.
use formaldehyde.Prelude.{
  ℕ, ◌+◌, ◌*◌, ◌≤◌, ◌<◌, ◌≡◌, refl, arith, ◌∙◌, ap₂, fun_ext, ℤ, pos, List, [], ◌∷◌, length, Result,
  ok, u16, tabulate,
}
use formaldehyde.Prelude.Outcome.{Outcome, return, ◌>>◌, >>=-ok}
use formaldehyde.Msp43x.Slice.{Slice}
use formaldehyde.Msp43x.Memory.{Memory}
use formaldehyde.Msp43x.Loader.{text, field, store_bytes, load_line, load_lines, load_hex}

module _ {M : Type 0} (memory : Memory M) (parse_int : List ℕ → ℕ → ℕ → Result ℤ) where
  -- Consecutive bytes stored from an address, which wraps after 0xffff.
  unfoldable pub store_all : ℕ → List ℕ → M → Outcome M (Unit {0})
  store_all addr [] = return tt
  store_all addr (b ∷ bs) = memory.store_byte addr b >> store_all (u16 (addr + 1)) bs

  -- From the data byte of index `i` on, a line has the digits of `bytes`.
  abbrev pub IsData : Slice → ℕ → List ℕ → Type 0
  IsData line i [] = Unit
  IsData line i (b ∷ bs) =
      (parse_int (tabulate line.at (9 + i * 2) 2) 16 16 ≡ ok (pos b))
      × (b < 256)
      × IsData line (i + 1) bs

  -- A line is the record that holds `bytes` at `addr`, with two more characters at least.
  abbrev pub IsRecord : Slice → ℕ → List ℕ → Type 0
  IsRecord line addr bytes =
      (11 + length bytes * 2 ≤ line.len)
      × (line.len ≤ line.cap)
      × (parse_int (tabulate line.at 1 2) 16 8 ≡ ok (pos (length bytes)))
      × (parse_int (tabulate line.at 3 4) 16 32 ≡ ok (pos addr))
      × IsData line 0 bytes

  field-parsed :
      (line : Slice) (lo n bits : ℕ) {z : ℤ} (s : M)
      → lo + n ≤ line.cap
      → parse_int (tabulate line.at lo n) 16 bits ≡ ok z
      → field memory parse_int line lo (lo + n) bits s ≡ Outcome.ok z s
  unfolding field text
  field-parsed line lo n bits s h e = ground (arith, e)

  pub store_bytes-IsData :
      (line : Slice) (bytes : List ℕ) (i addr : ℕ) (s : M)
      → 9 + (i + length bytes) * 2 ≤ line.cap
      → IsData line i bytes
      → store_bytes memory parse_int (length bytes) i addr line s ≡ store_all addr bytes s
  unfolding store_bytes store_all
  store_bytes-IsData line [] i addr s h d = refl
  store_bytes-IsData line (b ∷ bs) i addr s h (e, fits, d) =
      >>=-ok (field memory parse_int line (9 + i * 2) (9 + i * 2 + 2) 16) _ s
        (field-parsed line (9 + i * 2) 2 16 s (omega arith) e)
      ∙ ap₂ (λ (x : ℕ) (k : M → Outcome M (Unit {0})). (memory.store_byte addr x >> k) s)
          (omega arith)
          (fun_ext (λ s'. store_bytes-IsData line bs (i + 1) (u16 (addr + 1)) s' (omega arith) d))

  -- A well-formed record stores its bytes, in order, from its address, and nothing else.
  pub load_line-IsRecord :
      (line : Slice) (addr : ℕ) (bytes : List ℕ) (s : M)
      → IsRecord line addr bytes
      → load_line memory parse_int line s ≡ store_all (u16 addr) bytes s
  unfolding load_line
  load_line-IsRecord line addr bytes s (long, room, e_len, e_addr, d) = ground (
    arith,
    field-parsed line 1 2 8 s (omega arith) e_len,
    field-parsed line 3 4 32 s (omega arith) e_addr,
    store_bytes-IsData line bytes 0 (u16 addr) s (omega arith) d,
  )

  -- Records, each an address and its bytes, stored one after the other.
  unfoldable pub store_records : List (ℕ × List ℕ) → M → Outcome M (Unit {0})
  store_records [] = return tt
  store_records ((addr, bytes) ∷ rest) = store_all (u16 addr) bytes >> store_records rest

  -- The lines are the records.
  abbrev pub IsImage : List Slice → List (ℕ × List ℕ) → Type 0
  IsImage [] [] = Unit
  IsImage [] (record_1 ∷ rest) = ⊥
  IsImage (line ∷ lines) [] = ⊥
  IsImage (line ∷ lines) ((addr, bytes) ∷ rest) = IsRecord line addr bytes × IsImage lines rest

  load_lines-IsImage :
      (lines : List Slice) (records : List (ℕ × List ℕ)) (s : M)
      → IsImage lines records
      → load_lines memory parse_int lines s ≡ store_records records s
  unfolding load_lines store_records
  load_lines-IsImage [] [] s h = refl
  load_lines-IsImage [] (r ∷ rest) s h = absurd h
  load_lines-IsImage (line ∷ lines) [] s h = absurd h
  load_lines-IsImage (line ∷ lines) ((addr, bytes) ∷ rest) s (h, hs) =
      ap₂ (λ (m k : M → Outcome M (Unit {0})). (m >> k) s)
        (fun_ext (λ s'. load_line-IsRecord line addr bytes s' h))
        (fun_ext (λ s'. load_lines-IsImage lines rest s' hs))

  -- `LoadHex` of an image of well-formed records clears the memory and stores the bytes of every
  -- record from its address on, in the order of the image, and does what those stores do.
  pub load_hex-IsImage :
      (lines : List Slice) (records : List (ℕ × List ℕ)) (s : M)
      → IsImage lines records
      → load_hex memory parse_int lines s ≡ store_records records (memory.clear s)
  unfolding load_hex
  load_hex-IsImage lines records s h = load_lines-IsImage lines records (memory.clear s) h
