-- ===== src/Device/Exper/Client.antt =====
-- The two devices of kernel/exper/exper.c as read-pageflags/read-pageflags.c sees them.
use mm_exper.Base.{ℕ, Option, none, some, [], ◌∷◌}
use mm_exper.Base.Int.{ℤ, pos}
use mm_exper.Base.Text.{Bytes, skip_spaces}
use mm_exper.Base.Numerals.Signed.{scan_int}
use mm_exper.Device.{Buffer, Calls, device_read}
use mm_exper.Device.Documented.{request}
use mm_exper.Device.Exper.{Page, BufferBits, refcount_write, pagebuffers_write}
use mm_exper.ReadPageflags.Print.{Devices, Reply, not_read, reply}

-- The buffers of the module.
pub record Exper : Type 0 where
  pub refcount_buf : Buffer
  pub pagebuffers_buf : Buffer

-- `fscanf (fp, "%d", &ret)` with `ret` 0 before it.
abbrev pub scan_or_zero : Bytes → Option (ℤ × Bytes) → Reply ℤ
scan_or_zero [] scanned = not_read
scan_or_zero (c ∷ cs) none = reply (pos 0)
scan_or_zero (c ∷ cs) (some (z, rest)) = reply z

unfoldable pub fscanf_int : Bytes → Reply ℤ
fscanf_int input = scan_or_zero (skip_spaces input) (scan_int input)

-- The request of get_refcount and print_page_buffers, which `fflush` writes whatever the module answers,
-- and what they read behind it, a file reading `block` bytes at once.
unfoldable pub exper_devices : BufferBits → Calls → (ℕ → Option Page) → ℕ → Exper → Devices
unfolding fscanf_int
exper_devices bh calls pfn_to_page block s = record {
  refcount = λ pfn.
      let b = (refcount_write calls pfn_to_page s.refcount_buf 0 (request pfn)).buffer in
      fscanf_int (device_read calls b block 0);
  pagebuffers = λ pfn.
      let b = (pagebuffers_write bh calls pfn_to_page s.pagebuffers_buf 0 (request pfn)).buffer in
      reply (device_read calls b block 0);
}
