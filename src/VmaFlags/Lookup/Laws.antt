-- ===== src/VmaFlags/Lookup/Laws.antt =====
-- What `lookup_vma_flags` prints, through the device.
use mm_exper.Base.{ℕ, ◌+◌, ◌^◌, ◌≤◌, ◌<◌, ◌≡◌, refl, ap, ◌∙◌, arith, ltb, false, true, true}
use mm_exper.Base.{Option, none, some, [], ◌∷◌, ◌++◌, length, take-all}
use mm_exper.Base.Text.{Bytes, skip_spaces, scan_hex, hex_after_space, hex_digit_value}
use mm_exper.Base.Numerals.{hex_numeral}
use mm_exper.Base.Numerals.Hex.{length-hex_numeral, scan_hex-hex_numeral}
use mm_exper.Base.Run.{print}
use mm_exper.Device.{Written, Buffer, Calls, device_read}
use mm_exper.Device.Vma.Branches.{vmaflags_write-found, vmaflags_write-missing}
use mm_exper.Device.Vma.{Vma, vma_at, reset}
use mm_exper.Device.Documented.{Documented, copied, read-text}
use mm_exper.VmaFlags.{print_vma_flags}
use mm_exper.VmaFlags.Lookup.{
  Client, scan_or_keep, print_scanned, fscanf_hex, asked, lookup_vma_flags,
}

matched :
    (flags n : ℕ) (t rest : Bytes)
    → hex_after_space t ≡ some (n, rest)
    → scan_or_keep flags t (hex_after_space t) ≡ some n
unfolding hex_after_space
matched flags n [] rest e = absurd (ground arith)
matched flags n (c ∷ cs) rest e = rw e refl

-- What `find_vma`, which gives the VMA with the lowest end above an address, has for one in no VMA.
abbrev pub InNoVma : ℕ → Option Vma → Type 0
InNoVma addr none = Unit
InNoVma addr (some vma) = addr < vma.vm_start

module _ (client : Client) (calls : Calls) (doc : Documented calls) (find_vma : ℕ → Option Vma)
    (b : Buffer) (addr : ℕ) (fits : addr < 2 ^ 64) where
  -- The buffer behind the request, for an address in a VMA and for one in none.
  asked-found :
      {vma : Vma}
      → vma_at addr (find_vma addr) ≡ some vma
      → asked calls find_vma b addr ≡ record {
        output_buf = hex_numeral vma.vm_flags;
        output_buf_size = 1 + length (hex_numeral vma.vm_flags);
      }
  asked-found {vma} e =
      ap (λ (w : Written). w.buffer)
        (vmaflags_write-found calls find_vma b 0 (copied doc addr) (doc.scans addr fits) e)
      ∙ ap
          (λ (t : Bytes). record {
            output_buf = t;
            output_buf_size = 1 + length (hex_numeral vma.vm_flags);
          })
          (take-all 4094 (hex_numeral vma.vm_flags)
            (omega (arith, length-hex_numeral vma.vm_flags)))

  asked-missing : vma_at addr (find_vma addr) ≡ none → asked calls find_vma b addr ≡ reset
  asked-missing e =
      ap (λ (w : Written). w.buffer)
        (vmaflags_write-missing calls find_vma b 0 (copied doc addr) (doc.scans addr fits) e)

  fscanf-found : (flags n : ℕ) → n < 2 ^ 64 → fscanf_hex flags (hex_numeral n ++ 0 ∷ []) ≡ some n
  unfolding fscanf_hex scan_hex hex_digit_value
  fscanf-found flags n h =
      matched flags n (skip_spaces (hex_numeral n ++ 0 ∷ [])) (0 ∷ [])
        (scan_hex-hex_numeral n 0 [] h refl refl)

  fscanf-missing : (flags : ℕ) → fscanf_hex flags (0 ∷ []) ≡ some flags
  unfolding fscanf_hex scan_hex hex_digit_value
  fscanf-missing flags = refl

  in_vma :
      {vma : Vma}
      → find_vma addr ≡ some vma
      → vma.vm_start ≤ addr
      → vma_at addr (find_vma addr) ≡ some vma
  in_vma {vma} e below = rw (e, reached below) refl
    where
      reached : vma.vm_start ≤ addr → ltb addr vma.vm_start ≡ false
      reached below = ground arith

  in_none : (found : Option Vma) → InNoVma addr found → vma_at addr found ≡ none
  in_none none e = refl
  in_none (some vma) e = rw (above e) refl
    where
      above : addr < vma.vm_start → ltb addr vma.vm_start ≡ true
      above e = ground arith

  -- Where the device can be opened and written to: if the address, of 64 bits, lies in a VMA with flags
  -- of 64 bits, `lookup_vma_flags` prints these as `print_vma_flags` does, whatever the device was asked
  -- before; the kernel's calls do what is documented of them and a file reads 17 bytes at once.
  pub lookup_vma_flags-found :
      {vma : Vma}
      → find_vma addr ≡ some vma
      → vma.vm_start ≤ addr
      → vma.vm_flags < 2 ^ 64
      → client.opened ≡ true
      → client.printed ≡ true
      → 17 ≤ client.block
      → lookup_vma_flags client calls find_vma b addr ≡ print (print_vma_flags vma.vm_flags) tt
  unfolding lookup_vma_flags
  lookup_vma_flags-found {vma} e below h opened done size =
      rw (opened, done)
        (ap print_scanned (
          ap (λ (t : Buffer). fscanf_hex client.flags (device_read calls t client.block 0))
            (asked-found (in_vma e below))
          ∙ ap (fscanf_hex client.flags) (
              read-text doc (hex_numeral vma.vm_flags) client.block
                (omega (arith, length-hex_numeral vma.vm_flags)))
          ∙ fscanf-found client.flags vma.vm_flags h))

  -- Where the device can be opened and written to, the kernel's calls do what is documented of them and a
  -- file reads 17 bytes at once: if the address, of 64 bits, lies in no VMA, the write is refused, but
  -- `lookup_vma_flags` goes on and prints the value that its local `flags` happens to hold, as if it
  -- were the VMA's.
  pub lookup_vma_flags-missing :
      InNoVma addr (find_vma addr)
      → client.opened ≡ true
      → client.printed ≡ true
      → 17 ≤ client.block
      → lookup_vma_flags client calls find_vma b addr ≡ print (print_vma_flags client.flags) tt
  unfolding lookup_vma_flags
  lookup_vma_flags-missing e opened done size =
      rw (opened, done)
        (ap print_scanned (
          ap (λ (t : Buffer). fscanf_hex client.flags (device_read calls t client.block 0))
            (asked-missing (in_none (find_vma addr) e))
          ∙ ap (fscanf_hex client.flags) (read-text doc [] client.block (omega arith))
          ∙ fscanf-missing client.flags))
