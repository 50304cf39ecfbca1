-- ===== src/Lib.antt =====
-- A model of redbase, a small relational database in C++, with the theorems that make its core
-- correct. The sources stand in src/ of the repository.
--
-- The program is a stack of components. Pages of files are kept in the slots of a buffer manager
-- (src/pf_buffermgr.cc), which finds them through a hash table (src/pf_hashtable.cc). Record files and
-- B+ tree indexes use the pages; a node of an index (src/btree_node.cc) orders its keys by an attribute
-- comparison. Scans filter records by a predicate on one attribute (src/predicate.cc).
--
-- Files:
--   Base and its children: names, lists, tests and integers that all modules share.
--   Types, Record.Rid: the enumerations of src/redbase.h and the class RID of src/rm_rid.h.
--   Bytes: memory behind a pointer, the C library's memcmp and strncmp, and the read of an int.
--   Btree.Node: the class BtreeNode, a method a function (Insert is insert, FindKey is find_key, and
--     so on); its loops are functions of their own. Btree.Key is the interface of CmpKey to the node,
--     Btree.Compare the implementation. The other children of Btree prove what its methods do.
--   Record.Bitmap and Record.Bitmap.Laws: the class bitmap. Record.Page: RM_PageHdr, and GetNumSlots and
--     GetSlotPointer of RM_FileHandle; its children prove the layout of a page. Bytes.Ints: an int that is
--     written to memory and read back; Bytes.Copies: memcpy to a place in a buffer.
--   Record.Slot: the work of RM_FileHandle on one page; its children prove which slots are free after it
--     and what the slots hold.
--     Record.File and Record.File.Records: RM_FileHandle (src/rm_filehandle.cc) over the paged file.
--     Record.Scan: RM_FileScan (src/rm_filescan.cc) over it. Its children Held, Slots and Rows are about
--     a table whose pages the buffer holds, and the records that GetNextRec gives of it.
--   Predicate and Predicate.Laws: Predicate::eval.
--   Paged.Code, Paged.Outcome: return codes, and functions that return a code and leave a state.
--   Paged.Hash and Paged.Hash.Laws: PF_HashTable.
--   Paged.Buffer: PF_BufferMgr, its state and lists; Paged.Buffer.Pages and Paged.Buffer.Files its
--     requests; Paged.Buffer.Links and its children the lists of slots as sequences, and which fields
--     of a slot they are about; Paged.Buffer.Alike the steps that leave the lists alone,
--     Paged.Buffer.Alloc the search for a slot, Paged.Buffer.Requests pins and unpins.
--   Paged.File: PF_FileHandle and PF_PageHandle (src/pf_filehandle.cc, src/pf_pagehandle.cc) over the
--     buffer, with the walks over the pages in Paged.File.Walk; Paged.File.Alloc proves what an
--     allocation gives. Paged.Buffer.Pins says what a request of a page that is held does to the buffer, and
--     Paged.File.Held is about a file whose pages the buffer holds, with room in their pin counts.
--   Index: IX_IndexHandle (src/ix_indexhandle.cc), its members and its calls of the paged file, which
--     are an interface; Index.Files fills it with PF_FileHandle. Index.Path has the searches for a leaf
--     and Search, Index.Insert InsertEntry, Index.Delete DeleteEntry, Index.Open Open and the destructor.
--     Index.Tree says what a tree of nodes holds and how it is ordered, Index.Child which child a search
--     takes, Index.Requests what is asked of the paged file, which Index.Served proves of a file whose pages the
--     buffer holds, Index.Reach and Index.Search what the
--     searches find. Index.Apart is about the pages of a tree, Index.Plus, Index.Route and Index.Grown
--     about a tree with one entry more, Index.Leaf, Index.Rise, Index.Raise and Index.Insertion about what
--     the code changes, and Index.Entry, Index.Adds and Index.Exists about InsertEntry as a whole.
--   Operator: the interface Iterator (src/iterator.h) that the operators of a query offer and use, with
--     DataAttrInfo, and the loop of QL_Manager::PrintIterator. Operator.Scans says what an iterator
--     promises. Operator.Join is NestedLoopJoin (src/nested_loop_join.cc), Operator.Project Projection
--     (src/projection.cc), each with the tuples that it gives in a child; Operator.Select is a query of both.
--     Operator.Table is FileScan (src/file_scan.cc) with the filters of src/filter_eval.h;
--     Operator.Table.Tuples says which tuples a table in the buffer has, and Operator.Table.Output proves that
--     the scan keeps the promise of Operator.Scans.
--     Operator.Sort is the sort of src/sort.h, whose children are about its comparison, order and tuples.
--     Operator.Agg is the grouping of src/agg.h.
--   Tests: runs of the code on concrete inputs, and instances of the theorems.
--
-- State and operations: an object is a record, and a method takes it and returns it anew. The arrays of
-- a page or of a table are functions of the index. A node keeps the number of keys twice, as the code
-- does: on the page and in a member. A code of -1 for a position is a negative integer, and
-- INVALID_SLOT is none. A pin count is the bit pattern of its 16 bits. A method that may stop early with
-- a code is an operation of Paged.Outcome, which also has the outcome fault for an access outside an
-- array.
--
-- Bounds and fuel: the loops over a node recur on the number of entries, so they need no fuel; the
-- constructor's loop has the order it starts from as fuel, and the order falls in each round. The loops
-- over the buffer's lists have one round more than there are slots, and a walk over the pages of a file
-- one round for each page that is left in its direction. The loop of the join has a bound in its plan; it is
-- enough when it is larger than the number of pairs of the two inputs. The scan of a file has a round for each page and slot
-- that is left, and the scan of a table a bound in its state, which is enough when
-- it is larger than the number of records that pass its predicate. A search of an index pins one page in each
-- level, so its theorems ask for room for as many pins in the 16-bit counts. A
-- sort and a grouping have a bound on the tuples of their input. A multiset is the list of its tuples in order.
--
-- Not modelled: the overflow of int in the sum that is hashed; memory that runs out, which ends the
-- program; the log and the statistics that the buffer manager can be compiled with; printing; two
-- node objects on one page; a page handle that points to no page, on which GetData and GetPageNum
-- return a code; a record file whose record size is negative, an insertion of a null pointer, and
-- the opening of a record file. Pointers have 8 bytes, which the size of RM_PageHdr depends on. The
-- assertions of the code are not steps of the model. Floats are a parameter, with what the code
-- relies on as a named hypothesis. The system calls lseek, read and write are a parameter of the
-- buffer manager and of the file handle. The managers of files, the scans of
-- indexes, the constructors of FileScan, which reads the catalog, and of Agg, the record identifier that it puts into a
-- tuple, the system layer, the choice of a query's plan, the operators of a query but the nested
-- loop join, the projection, the sort, the
-- grouping and the scan of a table, and the parser, are not modelled. Of an operator the sort order that it
-- reports and its explanation are not. An output tuple has the length of the operator that writes it, and
-- the bytes behind an array read as 0. Of an index, a node
-- object is the page that it points into, so that all objects of one page agree; the bytes of its pages
-- are not, only the nodes on them. A chain of left neighbours that is longer than the file has pages is
-- a fault of DupScanLeftFind, since the code does not end on a cycle.
pub mod Base
pub mod Types
pub mod Bytes
pub mod Record
pub mod Btree
pub mod Index
pub mod Predicate
pub mod Operator
pub mod Paged
mod Tests
