-- ===== src/Device/Exper/Laws.antt =====
-- The reference count that the client of /dev/refcount gets.
use mathlib.Core.Path.{ap₂}
use mm_exper.Base.{ℕ, ◌^◌, ◌≤◌, ◌<◌, ◌≡◌, refl, ap, ◌∙◌, arith, suc}
use mm_exper.Base.{Option, none, some, [], ◌∷◌, ◌++◌, length, take-all}
use mm_exper.Base.Int.{ℤ, pos, negsuc}
use mm_exper.Base.Text.{Bytes, skip_spaces}
use mm_exper.Base.Run.{print}
use mm_exper.Base.Numerals.{int_numeral}
use mm_exper.Base.Numerals.Dec.{length-dec_numeral}
use mm_exper.Base.Numerals.Signed.{int_after_space, scan_int, IsInt, scan_int-int_numeral}
use mm_exper.Device.{Buffer, Calls, Written, device_read}
use mm_exper.Device.Documented.{Documented, request, with_number-request, read-text}
use mm_exper.Device.Exper.{Page, BufferBits, on_pfn, refcount_of, refcount_write}
use mm_exper.Device.Exper.Branches.{on_pfn-page, on_pfn-none}
use mm_exper.Device.Exper.Client.{Exper, scan_or_zero, fscanf_int, exper_devices}
use mm_exper.ReadPageflags.Print.{Devices, reply, get_refcount}

get_refcount-reply :
    (dev : Devices) (pfn : ℕ) {z : ℤ}
    → dev.refcount pfn ≡ reply z
    → get_refcount dev pfn ≡ print [] z
unfolding get_refcount
get_refcount-reply dev pfn e = rw (e, get_refcount) refl

matched :
    (t rest : Bytes) (z : ℤ)
    → int_after_space t ≡ some (z, rest)
    → scan_or_zero t (int_after_space t) ≡ reply z
unfolding int_after_space
matched [] rest z e = absurd (ground arith)
matched (c ∷ cs) rest z e = rw e refl

length-int_numeral : (z : ℤ) → length (int_numeral z) ≤ 21
length-int_numeral (pos n) = omega (arith, length-dec_numeral n)
length-int_numeral (negsuc n) = omega (arith, length-dec_numeral (suc n))

module _ {calls : Calls} (doc : Documented calls) (block : ℕ) (enough : 22 ≤ block) where
  -- The buffer that describes a page, read by the client.
  read-refcount_of :
      (pg : Page)
      → IsInt pg.refcount
      → fscanf_int (device_read calls (refcount_of pg) block 0) ≡ reply pg.refcount
  unfolding fscanf_int scan_int
  read-refcount_of pg fits =
      let text = int_numeral pg.refcount in
      ap fscanf_int (
        ap (λ (b : Buffer). device_read calls b block 0)
          (ap₂ (λ (t : Bytes) (n : ℕ). record { output_buf = t; output_buf_size = n })
            (take-all 254 text (omega (arith, length-int_numeral pg.refcount))) (omega arith))
        ∙ read-text doc text block (omega (arith, length-int_numeral pg.refcount)))
      ∙ matched (skip_spaces (text ++ 0 ∷ [])) (0 ∷ []) pg.refcount
          (scan_int-int_numeral pg.refcount 0 [] fits refl)

  module _ (bh : BufferBits) (pfn_to_page : ℕ → Option Page) (s : Exper) (pfn : ℕ)
      (fits : pfn < 2 ^ 64) (pg : Page) (count : IsInt pg.refcount) where
    ends : ℕ → ℕ → Written
    unfolding on_pfn
    ends = on_pfn pfn_to_page refcount_of s.refcount_buf (request pfn)

    asked : Buffer
    unfolding refcount_write
    asked = (refcount_write calls pfn_to_page s.refcount_buf 0 (request pfn)).buffer

    asked-page : pfn_to_page pfn ≡ some pg → asked ≡ refcount_of pg
    unfolding asked refcount_write ends
    asked-page e =
        ap (λ (w : Written). w.buffer) (with_number-request doc s.refcount_buf pfn ends fits)
        ∙ on_pfn-page pfn_to_page refcount_of s.refcount_buf (request pfn) pfn _ e

    asked-none : pfn_to_page pfn ≡ none → asked ≡ s.refcount_buf
    unfolding asked refcount_write ends
    asked-none e =
        ap (λ (w : Written). w.buffer) (with_number-request doc s.refcount_buf pfn ends fits)
        ∙ on_pfn-none pfn_to_page refcount_of s.refcount_buf (request pfn) pfn _ e

    got :
        asked ≡ refcount_of pg
        → get_refcount (exper_devices bh calls pfn_to_page block s) pfn ≡ print [] pg.refcount
    unfolding asked exper_devices
    got e = get_refcount-reply (exper_devices bh calls pfn_to_page block s) pfn (
        ap (λ (b : Buffer). fscanf_int (device_read calls b block 0)) e ∙ read-refcount_of pg count)

    -- Through the module of kernel/exper, whatever its buffers hold, get_refcount of read-pageflags.c
    -- returns the reference count of the page with a 64-bit frame number, which is an `int`, if there is
    -- one; the kernel's calls do what is documented of them and a file reads 22 bytes at once.
    pub get_refcount-page :
        pfn_to_page pfn ≡ some pg
        → get_refcount (exper_devices bh calls pfn_to_page block s) pfn ≡ print [] pg.refcount
    get_refcount-page e = got (asked-page e)

    -- Through the module of kernel/exper, where the kernel's calls do what is documented of them and a file
    -- reads 22 bytes at once: of a 64-bit frame number with no page, which the module refuses,
    -- get_refcount returns the count of the page that the buffer describes, which is the one asked
    -- for before; that count is an `int`.
    pub get_refcount-stale :
        pfn_to_page pfn ≡ none
        → s.refcount_buf ≡ refcount_of pg
        → get_refcount (exper_devices bh calls pfn_to_page block s) pfn ≡ print [] pg.refcount
    get_refcount-stale e before = got (asked-none e ∙ before)
