-- ===== src/Change.antt =====
-- The record of one raw change, its path group and its legal blobs: history.go, the type `change`,
-- `pathGroup` and `recordLegalChange`.
pub mod Legal
use git_spdx.Common.{
  ◌≡◌, Bool, true, false, not, ◌&&◌, ◌||◌, List, if◌then◌else◌, Bytes, codes, equal, has_byte,
  bytes_eq,
}
use git_spdx.Common.Dict.{Dict, insert}

pub record Change : Type 0 where
  pub commit : Bytes
  pub date : Bytes
  pub subject : Bytes
  pub old_oid : Bytes
  pub new_oid : Bytes
  pub path : Bytes
  pub old_mode : Bytes
  pub new_mode : Bytes
  pub merge : Bool

abbrev pub group_all : Bytes
group_all = codes "all"

abbrev pub group_root : Bytes
group_root = codes "root"

abbrev pub group_legal : Bytes
group_legal = codes "legal"

abbrev pub group_other : Bytes
group_other = codes "other"

-- The modes that hold no blob to match: absent, symbolic link, submodule.
unfoldable pub is_file_mode : Bytes → Bool
is_file_mode mode =
    not (equal mode (codes "000000"))
    && not (equal mode (codes "120000"))
    && not (equal mode (codes "160000"))

-- `licenses.IsLegalPath` is the matcher's package; here it is the argument `is_legal_path`.
module _ (is_legal_path : Bytes → Bool) where
  unfoldable pub path_group : Bytes → Bytes
  path_group path =
      if not (is_legal_path path)
      then group_other
      else if not (has_byte b'/' path)
      then group_root
      else group_legal

  -- The map is `legal`; a set that is written in place.
  unfoldable pub record_legal_change : Dict Bytes Bool → Change → Dict Bytes Bool
  record_legal_change legal c =
      if equal (path_group c.path) group_other
      then legal
      else let old = if is_file_mode c.old_mode then insert c.old_oid true legal else legal in
        if is_file_mode c.new_mode then insert c.new_oid true old else old
