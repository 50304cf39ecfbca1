-- ===== src/Types.antt =====
-- The shared enumerations of src/redbase.h.
pub data AttrType : Type 0 where
  int float string : AttrType

pub data CompOp : Type 0 where
  no_op eq_op ne_op lt_op gt_op le_op ge_op : CompOp
