-- ===== src/Device/Documented.antt =====
-- What the kernel documents of the calls that the devices make.
use mm_exper.Base.{
  ℕ, ◌^◌, ◌≤◌, ◌<◌, ◌≡◌, ◌+◌, ◌∙◌, ap, arith, some, [], ◌∷◌, ◌++◌, length, length-append, take-all,
}
use mm_exper.Base.Text.{Bytes}
use mm_exper.Base.Numerals.{dec_numeral}
use mm_exper.Base.Numerals.Dec.{length-dec_numeral}
use mm_exper.Device.{Buffer, Calls, device_read, Written, with_number, with_number_lem}

-- The line that a client writes with `fprintf (fp, "%lu\n", n)`.
abbrev pub request : ℕ → Bytes
request n = dec_numeral n ++ b'\n' ∷ []

-- `simple_write_to_buffer` copies an input that fits, `simple_read_from_buffer` copies all there is where
-- the size allows it, and `sscanf` reads a 64-bit decimal numeral in front of a newline.
pub record Documented (calls : Calls) : Type 0 where
  pub copies :
      (input : Bytes)
      → 1 ≤ length input
      → length input ≤ 254
      → calls.write_to_buffer 254 0 input ≡ some input
  pub reads : (size : ℕ) (s : Bytes) → length s ≤ size → calls.read_from_buffer size 0 s ≡ s
  pub scans : (n : ℕ) → n < 2 ^ 64 → calls.scan_ulong (request n) ≡ some n

module _ {calls : Calls} (doc : Documented calls) where
  pub copied : (n : ℕ) → calls.write_to_buffer 254 0 (request n) ≡ some (request n)
  copied n =
      doc.copies (request n) (omega (arith, length-append (dec_numeral n) (b'\n' ∷ [])))
        (omega (arith, length-append (dec_numeral n) (b'\n' ∷ []), length-dec_numeral n))

  -- A request reaches the device's own part.
  pub with_number-request :
      (b : Buffer) (n : ℕ) (next : ℕ → ℕ → Written)
      → n < 2 ^ 64
      → with_number calls b 0 (request n) next ≡ next n (0 + length (request n))
  with_number-request b n next fits = with_number_lem calls b 0 next (copied n) (doc.scans n fits)

  -- What is read of a buffer: the text and its final zero, if the size counts it.
  pub read-text :
      (s : Bytes) (block : ℕ)
      → length s + 1 ≤ block
      → device_read calls (record { output_buf = s; output_buf_size = 1 + length s }) block 0
        ≡ s ++ 0 ∷ []
  unfolding device_read
  read-text s block size =
      ap (calls.read_from_buffer block 0)
        (take-all (1 + length s) (s ++ 0 ∷ []) (omega (arith, length-append s (0 ∷ []))))
      ∙ doc.reads block (s ++ 0 ∷ []) (omega (arith, length-append s (0 ∷ [])))
