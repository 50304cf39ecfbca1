-- ===== src/Index/Served.antt =====
-- The paged file of src/pf_filehandle.cc serves the index of src/ix_indexhandle.cc: while the buffer
-- holds the pages of the file, each level of a search can be read and pinned.
use redbase.Base.{ℕ, suc, ◌+◌, ◌≤◌, ◌≡◌, ℤ, arith}
use redbase.Index.Files.{paged_file}
use redbase.Index.Requests.{Serves}
use redbase.Paged.Buffer.Pages.{pin}
use redbase.Paged.Buffer.Pins.{Keeps-Moves}
use redbase.Paged.Buffer.{Buffer, Os}
use redbase.Paged.File.Held.{
  IsReady, with_buffer, Moves-IsReady, request-Moves, get_this_page-Keeps, unpin-IsReady,
}
use redbase.Paged.File.{State, PageHandle, get_this_page}
use redbase.Paged.Outcome.{ok, pure, bind_ok}

pin_le : (k : ℕ) → pin k ≤ k + 1
unfolding pin
pin_le k = omega arith

module _ {F : Type 0} ⦃os : Os F⦄ where
  got :
      (p : ℤ) (s : State F) (b : Buffer F) (ph : PageHandle)
      → get_this_page p s ≡ ok (with_buffer b s) ph
      → (paged_file ⦃os = os⦄).get p s ≡ ok (with_buffer b s) tt
  got p s b ph e = bind_ok (get_this_page p) (λ _. pure tt) s (with_buffer b s) ph e

  -- A file whose pages are all in the buffer serves them, with as many pins as the counts have room for.
  pub paged_file-Serves :
      (InUse : ℤ → Type 0) → Serves ⦃pf = paged_file ⦃os = os⦄⦄ InUse (IsReady InUse)
  paged_file-Serves InUse = record {
    request = λ n s p h u.
        let (a, b, c, e, e', e'', g) = request-Moves n p s h u in
        (
          with_buffer a s,
          with_buffer b s,
          with_buffer c s,
          got p s a (record { page = p; slot = (h.held p u).slot }) e,
          e',
          e'',
          Moves-IsReady s c g (omega arith) h,
        );
    pinned = λ n s p h u.
        let (c, e, g) = get_this_page-Keeps (suc n) p s h u in
        (
          with_buffer c s,
          got p s c (record { page = p; slot = (h.held p u).slot }) e,
          Moves-IsReady s c (Keeps-Moves (h.held p u).slot _ 1 s.buffer c g (pin_le _))
              (omega arith) h,
        );
    released = λ n s p h. unpin-IsReady n p s h;
  }
