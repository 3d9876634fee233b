-- ===== src/Host/Objects/Life.antt =====
-- The life of the region's object: made under one name, given another, removed.
use driver_hostmot.Base.{
  ◌≤◌, ◌≡◌, ◌≢◌, refl, ◌∙◌, Bool, true, false, none, some, Text, length, take_all,
}
use driver_hostmot.Host.Region.{hm2_region_set_state, shutdown}
use driver_hostmot.Host.Objects.{
  Objects, shm_path, put, Handle, name_max, hm2_region_rename, hm2_region_destroy,
}
use driver_hostmot.Host.Objects.Names.{IsNamed, put_ne, put-IsNamed, put-none}

module _ {Real : Type 0} where
  -- What a renaming leaves: the object under the new name only, or everything as it was.
  pub data Renaming (name : Text) (h : Handle Real) (o : Objects)
      : Bool × Handle Real × Objects → Type 0 where
    renamed :
        (p : Objects)
        → IsNamed (record h { name = name }) p
        → ((path : Text) → path ≢ shm_path h.name → path ≢ shm_path name → p.at path ≡ o.at path)
        → Renaming name h o (true, record h { name = name }, p)
    kept : Renaming name h o (false, h, o)

  -- A renaming of an object that has its name, to a name that fits: where the system renames it, the
  -- object has the new name and no other, and no third path is changed; where it does not, nothing is
  -- changed.
  pub hm2_region_rename_lem :
      (renames : Bool) (name : Text) (h : Handle Real) (o : Objects)
      → IsNamed h o
      → length name ≤ name_max
      → Renaming name h o (hm2_region_rename renames name h o)
  unfolding hm2_region_rename
  hm2_region_rename_lem false name h o named fits =
      rw ((named (shm_path h.name)).1 refl, hm2_region_rename) kept
  hm2_region_rename_lem true name h o named fits =
      rw ((named (shm_path h.name)).1 refl, hm2_region_rename, take_all name name_max fits)
        (renamed (put (shm_path name) (some h.object) (put (shm_path h.name) none o))
          (put-IsNamed (record h { name = name }) (put (shm_path h.name) none o)
            (put-none h o named))
          (λ path ne1 ne2.
            put_ne path (shm_path name) (some h.object) (put (shm_path h.name) none o) ne2
            ∙ put_ne path (shm_path h.name) none o ne1))

  -- Nothing has the object any more.
  pub hm2_region_destroy_lem :
      (h : Handle Real) (o : Objects)
      → IsNamed h o
      → h.mapped ≡ true
      → h.owner ≡ true
      → ((path : Text) → (hm2_region_destroy h o).1.at path ≢ some h.object)
        × ((hm2_region_destroy h o).0.mapped ≡ false)
        × ((hm2_region_destroy h o).0.region.state ≡ shutdown)
        × ((path : Text) → path ≢ shm_path h.name → (hm2_region_destroy h o).1.at path ≡ o.at path)
  unfolding hm2_region_destroy hm2_region_set_state
  hm2_region_destroy_lem h o named mapped owned =
      rw (mapped, owned)
        (put-none h o named, refl, refl, λ path ne. put_ne path (shm_path h.name) none o ne)
