-- ===== src/Paged/File/Walk.antt =====
-- The walks over the pages of a file: `GetFirstPage`, `GetLastPage`, `GetNextPage`, `GetPrevPage`.
use redbase.Base.{
  ℕ, zero, suc, ◌+◌, not, ◌&&◌, if◌then◌else◌, pos, negsuc, pos_part, neg_part, sub_ℕ, ◌+ℤ◌, eqb_ℤ,
  ℤ,
}
use redbase.Paged.Buffer.{Os}
use redbase.Paged.Code.{invalid_page, eof}
use redbase.Paged.File.{State, PageHandle, is_valid_page_num, when_open, get_this_page}
use redbase.Paged.Outcome.{ok, err, fault, Op}

module _ {F : Type 0} ⦃os : Os F⦄ where
  -- The loops of `GetNextPage` and `GetPrevPage`, with the number of pages that are left.
  unfoldable pub next_from : ℕ → ℤ → Op (State F) PageHandle
  unfolding get_this_page ◌+ℤ◌
  next_from zero page s = err s eof
  next_from (suc left) page s =
      let rest = next_from left (page +ℤ pos 1) in
      elim (get_this_page page s) [
        | ok t ph ↦ ok t ph
        | err t c ↦ if not (eqb_ℤ c invalid_page) then err t c else rest t
        | fault ↦ fault
      ]

  unfoldable pub prev_from : ℕ → ℤ → Op (State F) PageHandle
  unfolding get_this_page ◌+ℤ◌
  prev_from zero page s = err s eof
  prev_from (suc left) page s =
      let rest = prev_from left (page +ℤ negsuc 0) in
      elim (get_this_page page s) [
        | ok t ph ↦ ok t ph
        | err t c ↦ if not (eqb_ℤ c invalid_page) then err t c else rest t
        | fault ↦ fault
      ]

  -- `current` is valid or -1, so the loop has `numPages - (current + 1)` rounds.
  unfoldable pub get_next_page : ℤ → Op (State F) PageHandle
  unfolding is_valid_page_num next_from ◌+ℤ◌
  get_next_page current = when_open λ s.
      let n = s.handle.hdr.num_pages in
      let start = current +ℤ pos 1 in
      if not (eqb_ℤ current (negsuc 0)) && not (is_valid_page_num s.handle current)
      then err s invalid_page
      else next_from (pos_part (sub_ℕ (pos_part n + neg_part start) (neg_part n + pos_part start)))
          start s

  -- `current` is valid or `numPages`, so the loop has `current` rounds.
  unfoldable pub get_prev_page : ℤ → Op (State F) PageHandle
  unfolding is_valid_page_num prev_from ◌+ℤ◌
  get_prev_page current = when_open λ s.
      if not (eqb_ℤ current s.handle.hdr.num_pages) && not (is_valid_page_num s.handle current)
      then err s invalid_page
      else prev_from (pos_part current) (current +ℤ negsuc 0) s

  unfoldable pub get_first_page : Op (State F) PageHandle
  unfolding get_next_page
  get_first_page = get_next_page (negsuc 0)

  unfoldable pub get_last_page : Op (State F) PageHandle
  unfolding get_prev_page
  get_last_page s = get_prev_page s.handle.hdr.num_pages s
