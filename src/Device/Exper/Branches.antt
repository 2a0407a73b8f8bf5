-- ===== src/Device/Exper/Branches.antt =====
-- The buffer behind a write of a frame number, of which there is a page or not.
use mm_exper.Base.{ℕ, ◌≡◌, refl, Option, none, some}
use mm_exper.Base.Text.{Bytes}
use mm_exper.Device.{Buffer}
use mm_exper.Device.Exper.{Page, on_pfn}

module _ (pfn_to_page : ℕ → Option Page) (describe : Page → Buffer) (b : Buffer) (input : Bytes)
    (pfn off : ℕ) where
  pub on_pfn-page :
      {pg : Page}
      → pfn_to_page pfn ≡ some pg
      → (on_pfn pfn_to_page describe b input pfn off).buffer ≡ describe pg
  unfolding on_pfn
  on_pfn-page e = rw (on_pfn, e) refl

  pub on_pfn-none :
      pfn_to_page pfn ≡ none → (on_pfn pfn_to_page describe b input pfn off).buffer ≡ b
  unfolding on_pfn
  on_pfn-none e = rw (on_pfn, e) refl
