-- ===== src/Dsos/Added.antt =====
-- A shared object that is not known by its name is made, and is found by it from then on.
use libdw_bcc.Prelude.{
  ℕ, negsuc, ne→==, ==_iff, ◌+◌, ◌≡◌, refl, ◌∙◌, ap, sym, All-imp, none, some, List, [], ◌∷◌, ◌++◌,
}
use libdw_bcc.Rbtree.{Tree, leaf, Balance, rb_link_node, to_list}
use libdw_bcc.Rbtree.Search.{descend, slot, to_list-link, descend-eq-find, place-congr, find, place}
use libdw_bcc.Dso.{Dso, unknown}
use libdw_bcc.Store.{Ptr, World, update}
use libdw_bcc.Outcome.{ok}
use libdw_bcc.Refcount.{refcount_inc, refcount_dec_and_test}
use libdw_bcc.Store.{◌>>=◌, ◌>>◌, load_dso, store_dso}
use libdw_bcc.Dsos.{
  dso_new, dsos_add, set_basename, dso_get, dso_put, findlink_by_longname, link, dsos_addnew,
  dsos_findnew, longname_turn,
}
use libdw_bcc.Dsos.Names.{name_of, IsSorted, named, find-named, dsos_find-named}
use libdw_bcc.Dsos.Place.{
  first, place-IsSorted, IsSorted-kept, named-kept, fresh_kept, linking_turn, find-congr, turn-kept,
}

-- The object that dso__new makes, and what is left of it in the end.
abbrev pub made : List ℕ → Dso
made name = record {
  content = record {
    cache = leaf;
    fd = negsuc 0;
    status = unknown;
    file_size = 0;
    eh_frame_hdr_offset = 0;
  };
  short_name = name;
  long_name = name;
  refcnt = 1;
}

module _ (balance : Balance Ptr) (basename : List ℕ → List ℕ) (w : World) (name : List ℕ) where
  abbrev pub listed : World
  listed = record w {
    next = w.next + 1;
    dso = update w.dso w.next (some (made name));
    dsos = record { head = w.dsos.head ++ (w.next ∷ []); root = w.dsos.root };
  }

  abbrev pub new_root : Tree Ptr
  new_root =
      let turn = longname_turn listed (some (w.next, made name)) name in
      let at = slot turn w.dsos.root in
      balance.rb_insert_color at (rb_link_node w.next at w.dsos.root)

  -- The memory in the end.
  abbrev pub added : World
  added =
      let got : Dso = record (made name) { refcnt = 2 } in
      let based : Dso = record got { short_name = basename name } in
      record listed {
        dso =
            update
              (update
                (update (update (update w.dso w.next (some (made name))) w.next (some got)) w.next
                  (some based))
                w.next (some (record based { refcnt = 1 })))
              w.next (some based);
        dsos = record { head = w.dsos.head ++ (w.next ∷ []); root = new_root };
      }

  -- Before the reference of the caller is taken.
  abbrev before_get : World
  before_get =
      let got : Dso = record (made name) { refcnt = 2 } in
      let based : Dso = record got { short_name = basename name } in
      record added {
        dso =
            update
              (update (update (update w.dso w.next (some (made name))) w.next (some got)) w.next
                (some based))
              w.next (some (record based { refcnt = 1 }));
      }

  module _ (fresh : w.dso w.next ≡ none) (h : IsSorted w (to_list w.dsos.root))
      (e : named w name (to_list w.dsos.root) ≡ none) where
    new_root-place :
        (descend (longname_turn listed (some (w.next, made name)) name) w.dsos.root ≡ none)
        × (to_list new_root ≡ place (longname_turn added none name) w.next (to_list w.dsos.root))
    new_root-place =
        let ps = to_list w.dsos.root in
        let turn = longname_turn listed (some (w.next, made name)) name in
        let kept = fresh_kept w listed w.next ps fresh (λ q ne. rw (ne→== w.next q ne)) h in
        let sorted = IsSorted-kept w listed ps kept h in
        let unknown_ = named-kept w listed name ps kept ∙ e in
        let (cut, search) = find-named listed name ps sorted in
        let same = linking_turn listed w.next (made name) name ps sorted unknown_ in
        let (cut', search') = find-congr (longname_turn listed none name) turn ps same cut in
        let nothing : find turn ps ≡ none = search' ∙ search ∙ unknown_ in
        let at = slot turn w.dsos.root in
        let later =
          turn-kept w added name ps
            (fresh_kept w added w.next ps fresh (λ q ne. rw (ne→== w.next q ne)) h) in
        (
          descend-eq-find turn w.dsos.root cut' ∙ nothing,
          balance.insert_keeps_order at (rb_link_node w.next at w.dsos.root)
              ∙ to_list-link turn w.next w.dsos.root cut' nothing
              ∙ sym (place-congr (longname_turn listed none name) turn w.next ps same)
              ∙ sym (
                  place-congr (longname_turn w none name) (longname_turn listed none name) w.next ps
                    (All-imp (λ q. longname_turn listed none name q ≡ longname_turn w none name q)
                      (λ q. longname_turn w none name q ≡ longname_turn listed none name q) ps
                      (λ q k. sym k) (turn-kept w listed name ps kept)))
              ∙ sym (
                  place-congr (longname_turn added none name) (longname_turn w none name) w.next ps
                    later),
        )

    addnew-run : dsos_addnew balance basename name w ≡ ok (w.next, before_get)
    unfolding dsos_addnew dso_new dsos_add set_basename dso_get dso_put load_dso store_dso
        findlink_by_longname link refcount_inc refcount_dec_and_test
    addnew-run =
        let self = (==_iff w.next w.next).1 refl in
        rw (self, ◌>>=◌)
          (rw (new_root-place.0, ◌>>◌, ◌>>=◌)
            (rw (self, ◌>>=◌) (rw (self, ◌>>=◌) (rw (self, ◌>>=◌)))))

    pub findnew-run : dsos_findnew balance basename name w ≡ ok (w.next, added)
    unfolding dsos_findnew dso_get load_dso store_dso refcount_inc
    findnew-run =
        let self = (==_iff w.next w.next).1 refl in
        rw (dsos_find-named balance basename w name h, ◌>>=◌)
          (rw (e, ◌>>=◌) (rw (addnew-run, ◌>>=◌) (rw (self, ◌>>=◌))))

    pub added-IsSorted :
        IsSorted added (to_list new_root)
        × ((n : List ℕ)
            → named added n (to_list new_root)
              ≡ first name w.next (named w n (to_list w.dsos.root)) n)
    added-IsSorted =
        let ps = to_list w.dsos.root in
        let self = (==_iff w.next w.next).1 refl in
        let based : Dso = record (made name) { short_name = basename name; refcnt = 2 } in
        let live : added.dso w.next ≡ some based = rw self in
        let own : name_of added w.next ≡ name = rw (live, name_of) in
        let kept = fresh_kept w added w.next ps fresh (λ q ne. rw (ne→== w.next q ne)) h in
        let order = new_root-place.1 in
        let (sorted, search) =
          place-IsSorted added w.next name (based, live) own ps (IsSorted-kept w added ps kept h)
            (named-kept w added name ps kept ∙ e) in
        (
          rw order sorted,
          λ n. rw order (search n ∙ ap (λ o. first name w.next o n) (named-kept w added n ps kept)),
        )

    -- A shared object of a new name is made, with the name as its long name and the base name of it
    -- as its short name, and with one reference for the table and one for the caller. From then on
    -- it is found by its name, and any other name gives what it gave; and the tree stays sorted.
    pub dsos_findnew-new :
        (w' : World) × (dso : Dso) × (dsos_findnew balance basename name w ≡ ok (w.next, w'))
        × IsSorted w' (to_list w'.dsos.root)
        × ((n : List ℕ)
            → named w' n (to_list w'.dsos.root)
              ≡ first name w.next (named w n (to_list w.dsos.root)) n)
        × (w'.dso w.next ≡ some dso)
        × (dso.long_name ≡ name)
        × (dso.short_name ≡ basename name)
        × (dso.refcnt ≡ 2)
    dsos_findnew-new = (
      added,
      record (made name) { short_name = basename name; refcnt = 2 },
      findnew-run,
      added-IsSorted.0,
      added-IsSorted.1,
      rw ((==_iff w.next w.next).1 refl),
      refl,
      refl,
      refl,
    )
