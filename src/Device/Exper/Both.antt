-- ===== src/Device/Exper/Both.antt =====
-- The text that the client of /dev/pagebuffers prints, and both devices of a page.
use Prim.Native.String.{String}
use mm_exper.Base.{
  ℕ, zero, suc, ◌^◌, ◌≤◌, ◌<◌, ◌≡◌, refl, ap, ◌∙◌, arith, Bool, true, not, ◌&&◌, ◌==◌,
}
use mm_exper.Base.{Option, none, some, List, [], ◌∷◌, ◌++◌, length, take, take-append}
use mm_exper.Base.Int.{ℤ}
use mm_exper.Base.Text.{Bytes, codes}
use mm_exper.Base.Output.{text, str}
use mm_exper.Base.Run.{print}
use mm_exper.Device.{Buffer, Calls, Written, device_read}
use mm_exper.Device.Documented.{Documented, request, with_number-request}
use mm_exper.Device.Exper.{
  Page, BufferBits, on_pfn, letters, read_buffer_head, pagebuffers_of, pagebuffers_write,
}
use mm_exper.Device.Exper.Branches.{on_pfn-page}
use mm_exper.Device.Exper.Buffers.{shown, bracketed, read_buffer_head-shown}
use mm_exper.Device.Exper.Client.{Exper, exper_devices}
use mm_exper.Device.Exper.Laws.{get_refcount-page}
use mm_exper.Base.Numerals.Signed.{IsInt}
use mm_exper.ReadPageflags.Print.{get_refcount, c_string, buffers_text, print_page_buffers}

-- No byte is zero.
nonzero : Bytes → Bool
nonzero [] = true
nonzero (c ∷ cs) = not (c == 0) && nonzero cs

nonzero-append : (s t : Bytes) → nonzero (s ++ t) ≡ (nonzero s && nonzero t)
unfolding nonzero
nonzero-append [] t = refl
nonzero-append (c ∷ cs) t = ground (arith, nonzero-append cs t)

names_nonzero : List (ℕ × String) → Bool
unfolding nonzero
names_nonzero [] = true
names_nonzero ((flag, name) ∷ fs) = nonzero (codes name) && names_nonzero fs

shown-nonzero :
    (b_state : ℕ) (fs : List (ℕ × String))
    → names_nonzero fs ≡ true
    → nonzero (shown b_state fs) ≡ true
unfolding shown names_nonzero nonzero
shown-nonzero b_state [] h = refl
shown-nonzero b_state ((flag, name) ∷ fs) h =
    ground (arith, h, shown-nonzero b_state fs, nonzero-append (codes name) (shown b_state fs))

-- A text without zeros is read whole.
c_string-text : (n : ℕ) (s : Bytes) → length s < n → nonzero s ≡ true → c_string (take n s) ≡ s
unfolding nonzero
c_string-text zero s h e = absurd (omega arith)
c_string-text (suc n) [] h e = refl
c_string-text (suc n) (c ∷ cs) h e =
    let whole = c_string-text n cs (omega arith) (ground (arith, e)) in ground (arith, e, whole)

-- What stands for the buffers of a page.
abbrev pub buffers_shown : BufferBits → Option ℕ → Bytes
buffers_shown bh none = codes "[]"
buffers_shown bh (some b_state) = codes "[" ++ (shown b_state (letters bh) ++ codes "]")

-- The text of a state, and its length.
shown_text :
    (bh : BufferBits) (b_state : ℕ)
    → (nonzero (buffers_shown bh (some b_state)) ≡ true)
      × (length (buffers_shown bh (some b_state)) ≤ 24)
unfolding nonzero names_nonzero
shown_text bh b_state = (
  ground (
    arith,
    nonzero-append (shown b_state (letters bh)) (codes "]"),
    shown-nonzero b_state (letters bh) refl,
  ),
  omega (arith, ap length (bracketed bh b_state), (read_buffer_head-shown bh b_state).1),
)

buffers_text-print :
    (c : ℕ) (cs s : Bytes)
    → c_string (take 255 (c ∷ cs)) ≡ s
    → buffers_text (c ∷ cs) ≡ print (text "page_buffers=" ∷ str s ∷ text " " ∷ []) tt
buffers_text-print c cs s e =
    ap (λ (t : Bytes). print (text "page_buffers=" ∷ str t ∷ text " " ∷ []) tt) e

module _ {calls : Calls} (doc : Documented calls) (bh : BufferBits) (block : ℕ)
    (enough : 25 ≤ block) where
  -- What the client reads of a page: the text, with its final zero or without.
  abbrev page_with : ℤ → Option ℕ → Page
  page_with refcount b_state = record { refcount = refcount; b_state = b_state }

  read-page :
      (refcount : ℤ) (b_state : Option ℕ)
      → buffers_text (device_read calls (pagebuffers_of bh (page_with refcount b_state)) block 0)
        ≡ print (text "page_buffers=" ∷ str (buffers_shown bh b_state) ∷ text " " ∷ []) tt
  unfolding device_read
  read-page refcount none =
      ap buffers_text (doc.reads block (codes "[]" ++ 0 ∷ []) (omega arith))
      ∙ buffers_text-print b'[' (b']' ∷ 0 ∷ []) (codes "[]") refl
  read-page refcount (some b_state) =
      let whole = take-append (read_buffer_head bh b_state) (0 ∷ []) in
      let short = (read_buffer_head-shown bh b_state).1 in
      let (nonzero, length) = shown_text bh b_state in
      ap buffers_text (
        ap (calls.read_from_buffer block 0) whole
        ∙ doc.reads block (read_buffer_head bh b_state) (omega (arith, short))
        ∙ bracketed bh b_state)
      ∙ buffers_text-print b'[' (shown b_state (letters bh) ++ codes "]")
          (buffers_shown bh (some b_state))
          (c_string-text 255 (buffers_shown bh (some b_state)) (omega (arith, length)) nonzero)

  module _ (pfn_to_page : ℕ → Option Page) (s : Exper) (pfn : ℕ) (fits : pfn < 2 ^ 64)
      (pg : Page) where
    ends : ℕ → ℕ → Written
    unfolding on_pfn
    ends = on_pfn pfn_to_page (pagebuffers_of bh) s.pagebuffers_buf (request pfn)

    asked : Buffer
    unfolding pagebuffers_write
    asked = (pagebuffers_write bh calls pfn_to_page s.pagebuffers_buf 0 (request pfn)).buffer

    asked-page : pfn_to_page pfn ≡ some pg → asked ≡ pagebuffers_of bh pg
    unfolding asked pagebuffers_write ends
    asked-page e =
        ap (λ (w : Written). w.buffer) (with_number-request doc s.pagebuffers_buf pfn ends fits)
        ∙ on_pfn-page pfn_to_page (pagebuffers_of bh) s.pagebuffers_buf (request pfn) pfn _ e

    buffers_of_page :
        pfn_to_page pfn ≡ some pg
        → print_page_buffers (exper_devices bh calls pfn_to_page block s) pfn
          ≡ print (text "page_buffers=" ∷ str (buffers_shown bh pg.b_state) ∷ text " " ∷ []) tt
    unfolding asked exper_devices print_page_buffers
    buffers_of_page e =
        ap (λ (b : Buffer). buffers_text (device_read calls b block 0)) (asked-page e)
        ∙ read-page pg.refcount pg.b_state

    -- The module of kernel/exper is the two devices that read-pageflags.c asks for: whatever its buffers hold, of
    -- a page with a 64-bit frame number, get_refcount returns the reference count, which is an
    -- `int`, and print_page_buffers prints the names of the flags that are set in the page's first buffer
    -- head, or none without buffers, between brackets; the kernel's calls do what is documented
    -- of them and a file reads 25 bytes at once.
    pub exper_devices-page :
        IsInt pg.refcount
        → pfn_to_page pfn ≡ some pg
        → (get_refcount (exper_devices bh calls pfn_to_page block s) pfn ≡ print [] pg.refcount)
          × (print_page_buffers (exper_devices bh calls pfn_to_page block s) pfn
              ≡ print (text "page_buffers=" ∷ str (buffers_shown bh pg.b_state) ∷ text " " ∷ []) tt)
    exper_devices-page count e = (
      get_refcount-page doc block (omega arith) bh pfn_to_page s pfn fits pg count e,
      buffers_of_page e,
    )
