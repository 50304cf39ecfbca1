-- ===== src/Index/Files.antt =====
-- The paged file that `IX_IndexHandle` of src/ix_indexhandle.h works on, `PF_FileHandle`.
use redbase.Base.{negsuc}
use redbase.Index.{Pages}
use redbase.Paged.Buffer.{Os}
use redbase.Paged.File.{
  State, get_this_page, alloc_page, dispose_page, mark_page, unpin, force_file,
}
use redbase.Paged.Outcome.{◌>>=◌, pure}

-- `ALL_PAGES` is -1.
instance abbrev pub paged_file : {F : Type 0} ⦃os : Os F⦄ → Pages (State F)
paged_file = record {
  get = λ p. get_this_page p >>= λ _. pure tt;
  mark = mark_page;
  unpin = unpin;
  alloc = alloc_page >>= λ ph. pure ph.page;
  dispose = dispose_page;
  force = force_file (negsuc 0);
}
