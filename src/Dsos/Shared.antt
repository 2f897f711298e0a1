-- ===== src/Dsos/Shared.antt =====
-- src/dso.c: the names of a shared object are set, and the table is used under its lock.
use libdw_bcc.Prelude.{
  ℕ, ◌+◌, negsuc, ◌==◌, ==_iff, Bool-cases, inl, inr, ◌≡◌, refl, Bool, true, false, Option, some,
  List, [],
}
use libdw_bcc.Outcome.{ok}
use libdw_bcc.Rbtree.{leaf, Balance, Erase}
use libdw_bcc.Dso.{Dso, unknown}
use libdw_bcc.Store.{Ptr, World, Cmd, pure, ◌>>=◌, ◌>>◌, allocate, load_dso, store_dso, update}
use libdw_bcc.Dsos.{findlink_by_longname, dsos_add, dsos_find, dso_new}

-- dso__set_short_name, with a name that is not NULL.
unfoldable pub set_short_name : Ptr → List ℕ → Cmd (Unit {0})
set_short_name p name = do dso ← load_dso p; store_dso p (record dso { short_name = name })

-- rb_erase(&dso->rb_node, root)
abbrev pub erase_dso : Erase → Ptr → Cmd (Unit {0})
erase_dso erase p w =
    ok (tt, record w { dsos = record w.dsos { root = erase.rb_erase p w.dsos.root } })

module _ (balance : Balance Ptr) (erase : Erase) (basename : List ℕ → List ℕ) where
  -- The object is linked again, by its new name.
  abbrev pub relink : Ptr → List ℕ → Cmd (Unit {0})
  relink p name = do
    dso ← load_dso p
    found ← findlink_by_longname balance basename (some (p, dso)) name
    pure tt

  -- dso__set_long_name, with a name that is not NULL. The flag says whether dso->root is set: the
  -- object is in the tree then, and is taken out of it before its name changes.
  unfoldable pub set_long_name : Bool → Ptr → List ℕ → Cmd (Unit {0})
  set_long_name false p name = do dso ← load_dso p; store_dso p (record dso { long_name = name })
  set_long_name true p name = do
    erase_dso erase p
    dso ← load_dso p
    store_dso p (record dso { long_name = name })
    relink p name

  -- What xcalloc leaves, with the fields that dso__new sets itself.
  abbrev zeroed : Dso
  zeroed = record {
    content = record {
      cache = leaf;
      fd = negsuc 0;
      status = unknown;
      file_size = 0;
      eh_frame_hdr_offset = 0;
    };
    short_name = [];
    long_name = [];
    refcnt = 1;
  }

  -- dso_new makes the object that setting both names one after the other makes.
  dso_new-set_names :
      (name : List ℕ) (w : World)
      → (v : World) × (v' : World) × (dso_new name w ≡ ok (w.next, v))
        × ((allocate >>= λ p.
                store_dso p zeroed >> set_long_name false p name >> set_short_name p name >> pure p)
              w
            ≡ ok (w.next, v'))
        × ((q : Ptr) → v'.dso q ≡ v.dso q)
  unfolding set_long_name set_short_name load_dso store_dso dso_new
  dso_new-set_names name w =
      let self = (==_iff w.next w.next).1 refl in
      let named : Dso = record zeroed { short_name = name; long_name = name } in
      (
        record w { next = w.next + 1; dso = update w.dso w.next (some named) },
        record w {
          next = w.next + 1;
          dso =
              update
                (update (update w.dso w.next (some zeroed)) w.next
                  (some (record zeroed { long_name = name })))
                w.next (some named);
        },
        refl,
        rw (self, ◌>>=◌) (rw (self, ◌>>=◌)),
        λ q. elim (Bool-cases (w.next == q)) [ inl e ↦ rw e | inr e ↦ rw e ],
      )

  -- dsos__add: __dsos__add under the lock.
  abbrev pub add_locked : Ptr → Cmd (Unit {0})
  add_locked = dsos_add balance basename

  -- dsos__find: __dsos__find under the lock.
  abbrev pub find_locked : List ℕ → Bool → Cmd (Option Ptr)
  find_locked = dsos_find balance basename

-- dso__data_put_fd
abbrev pub data_put_fd : Ptr → Cmd (Unit {0})
data_put_fd p = pure tt
