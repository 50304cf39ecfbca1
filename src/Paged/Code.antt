-- ===== src/Paged/Code.antt =====
-- The return codes of src/pf.h that the component's functions return.
use redbase.Base.{ℤ, pos, negsuc}

abbrev pub page_pinned : ℤ
page_pinned = pos 1

abbrev pub page_not_in_buf : ℤ
page_not_in_buf = pos 2

abbrev pub page_unpinned : ℤ
page_unpinned = pos 7

abbrev pub no_buf : ℤ
no_buf = negsuc 1

abbrev pub incomplete_read : ℤ
incomplete_read = negsuc 2

abbrev pub incomplete_write : ℤ
incomplete_write = negsuc 3

abbrev pub page_in_buf : ℤ
page_in_buf = negsuc 6

abbrev pub hash_not_found : ℤ
hash_not_found = negsuc 7

abbrev pub hash_page_exist : ℤ
hash_page_exist = negsuc 8

abbrev pub unix : ℤ
unix = negsuc 10

abbrev pub invalid_page : ℤ
invalid_page = pos 3

abbrev pub closed_file : ℤ
closed_file = pos 5

abbrev pub page_free : ℤ
page_free = pos 6

abbrev pub eof : ℤ
eof = pos 8

abbrev pub hdr_write : ℤ
hdr_write = negsuc 5
