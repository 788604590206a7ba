-- ===== src/IosPatch/Patches.antt =====
-- The patches that nswitch/source/runtimeiospatch.c applies: the bytes looked for, the bytes stored,
-- and how far behind the match they are stored.
use vwii_nand_tools.Base.{ℕ, List, [], ◌∷◌}

pub record Patch : Type 0 where
  pub old : List ℕ
  pub new : List ℕ
  pub offset : ℕ

abbrev pub es_set_ahbprot : Patch
es_set_ahbprot = record {
  old =
      0x68 ∷ 0x5b ∷ 0x22 ∷ 0xec ∷ 0x00 ∷ 0x52 ∷ 0x18 ∷ 0x9b ∷ 0x68 ∷ 0x1b ∷ 0x46 ∷ 0x98 ∷ 0x07
      ∷ 0xdb ∷ [];
  new = 0x01 ∷ [];
  offset = 25;
}

abbrev pub isfs_permissions : Patch
isfs_permissions = record {
  old = 0x42 ∷ 0x8b ∷ 0xd0 ∷ 0x01 ∷ 0x25 ∷ 0x66 ∷ [];
  new = 0x42 ∷ 0x8b ∷ 0xe0 ∷ 0x01 ∷ 0x25 ∷ 0x66 ∷ [];
  offset = 0;
}

abbrev pub mem2_prot : Patch
mem2_prot = record {
  old = 0xb5 ∷ 0x00 ∷ 0x4b ∷ 0x09 ∷ 0x22 ∷ 0x01 ∷ 0x80 ∷ 0x1a ∷ 0x22 ∷ 0xf0 ∷ [];
  new = 0xb5 ∷ 0x00 ∷ 0x4b ∷ 0x09 ∷ 0x22 ∷ 0x00 ∷ 0x80 ∷ 0x1a ∷ 0x22 ∷ 0xf0 ∷ [];
  offset = 0;
}

abbrev pub es_open_title_content1 : Patch
es_open_title_content1 = record {
  old = 0x9d ∷ 0x05 ∷ 0x42 ∷ 0x9d ∷ 0xd0 ∷ 0x03 ∷ [];
  new = 0x9d ∷ 0x05 ∷ 0x42 ∷ 0x9d ∷ 0xe0 ∷ 0x03 ∷ [];
  offset = 0;
}

abbrev pub es_open_title_content2 : Patch
es_open_title_content2 = record {
  old = 0xd4 ∷ 0x01 ∷ 0x4c ∷ 0x36 ∷ 0xe0 ∷ 0x3b ∷ [];
  new = 0xe0 ∷ 0x01 ∷ 0x4c ∷ 0x36 ∷ 0xe0 ∷ 0x3b ∷ [];
  offset = 0;
}

abbrev pub es_read_content : Patch
es_read_content = record {
  old =
      0xfc ∷ 0x0f ∷ 0xb5 ∷ 0x30 ∷ 0x1c ∷ 0x14 ∷ 0x1c ∷ 0x1d ∷ 0x4b ∷ 0x0e ∷ 0x68 ∷ 0x9b ∷ 0x2b
      ∷ 0x00 ∷ 0xd0 ∷ 0x03 ∷ 0x29 ∷ 0x00 ∷ 0xdb ∷ 0x01 ∷ 0x29 ∷ 0x0f ∷ 0xdd ∷ 0x01 ∷ [];
  new =
      0xfc ∷ 0x0f ∷ 0xb5 ∷ 0x30 ∷ 0x1c ∷ 0x14 ∷ 0x1c ∷ 0x1d ∷ 0x4b ∷ 0x0e ∷ 0x68 ∷ 0x9b ∷ 0x2b
      ∷ 0x00 ∷ 0x46 ∷ 0xc0 ∷ 0x29 ∷ 0x00 ∷ 0x46 ∷ 0xc0 ∷ 0x29 ∷ 0x0f ∷ 0xe0 ∷ 0x01 ∷ [];
  offset = 0;
}

abbrev pub es_close_content : Patch
es_close_content = record {
  old =
      0xb5 ∷ 0x10 ∷ 0x4b ∷ 0x10 ∷ 0x68 ∷ 0x9b ∷ 0x2b ∷ 0x00 ∷ 0xd0 ∷ 0x03 ∷ 0x29 ∷ 0x00 ∷ 0xdb
      ∷ 0x01 ∷ 0x29 ∷ 0x0f ∷ 0xdd ∷ 0x01 ∷ [];
  new =
      0xb5 ∷ 0x10 ∷ 0x4b ∷ 0x10 ∷ 0x68 ∷ 0x9b ∷ 0x2b ∷ 0x00 ∷ 0x46 ∷ 0xc0 ∷ 0x29 ∷ 0x00 ∷ 0x46
      ∷ 0xc0 ∷ 0x29 ∷ 0x0f ∷ 0xe0 ∷ 0x01 ∷ [];
  offset = 0;
}

abbrev pub es_title_version_check : Patch
es_title_version_check = record {
  old = 0xd2 ∷ 0x01 ∷ 0x4e ∷ 0x56 ∷ [];
  new = 0xe0 ∷ 0x01 ∷ 0x4e ∷ 0x56 ∷ [];
  offset = 0;
}

abbrev pub es_title_delete_check : Patch
es_title_delete_check = record {
  old = 0xd8 ∷ 0x00 ∷ 0x4a ∷ 0x04 ∷ [];
  new = 0xe0 ∷ 0x00 ∷ 0x4a ∷ 0x04 ∷ [];
  offset = 0;
}

abbrev pub kill_anti_sys_title_installv3_pt1 : Patch
kill_anti_sys_title_installv3_pt1 = record {
  old = 0x68 ∷ 0x1a ∷ 0x2a ∷ 0x01 ∷ 0xd0 ∷ 0x05 ∷ [];
  new = 0x68 ∷ 0x1a ∷ 0x2a ∷ 0x01 ∷ 0x46 ∷ 0xc0 ∷ [];
  offset = 0;
}

abbrev pub kill_anti_sys_title_installv3_pt2 : Patch
kill_anti_sys_title_installv3_pt2 = record {
  old = 0xd0 ∷ 0x02 ∷ 0x33 ∷ 0x06 ∷ 0x42 ∷ 0x9a ∷ 0xd1 ∷ 0x01 ∷ [];
  new = 0x46 ∷ 0xc0 ∷ 0x33 ∷ 0x06 ∷ 0x42 ∷ 0x9a ∷ 0xe0 ∷ 0x01 ∷ [];
  offset = 0;
}

abbrev pub kill_anti_sys_title_installv3_pt3 : Patch
kill_anti_sys_title_installv3_pt3 = record {
  old = 0x68 ∷ 0xfb ∷ 0x2b ∷ 0x00 ∷ 0xdb ∷ 0x01 ∷ [];
  new = 0x68 ∷ 0xfb ∷ 0x2b ∷ 0x00 ∷ 0xdb ∷ 0x10 ∷ [];
  offset = 0;
}

-- In the order in which `IosPatch_RUNTIME` applies them.
abbrev pub sciifii_patches : List Patch
sciifii_patches =
    mem2_prot ∷ es_open_title_content1 ∷ es_open_title_content2 ∷ es_read_content ∷ es_close_content
    ∷ es_title_version_check ∷ es_title_delete_check ∷ []

abbrev pub vwii_patches : List Patch
vwii_patches =
    kill_anti_sys_title_installv3_pt1 ∷ kill_anti_sys_title_installv3_pt2
    ∷ kill_anti_sys_title_installv3_pt3 ∷ []
