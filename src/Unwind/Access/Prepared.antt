-- ===== src/Unwind/Access/Prepared.antt =====
-- A thread whose access is prepared has an address space, and nothing else has changed.
use libdw_bcc.Prelude.{
  pos, ne→==, ◌≡◌, refl, ◌∙◌, ap, Option, none, some, true, Bool-cases, inl, inr,
}
use libdw_bcc.Outcome.{ok}
use libdw_bcc.Store.{Ptr, Thread, World, ◌>>=◌, load_thread, store_thread, update, update_same}
use libdw_bcc.Unwind.Access.{
  AddrSpaces, set_addr_space, register, prepare_unless, prepare_access, flush_access,
}

-- libunwind does not touch the library's objects, and there is memory for an address space.
pub record IsCreating (spaces : AddrSpaces) : Type 0 where
  pub space : Ptr
  pub creates : (w : World) → spaces.create w ≡ ok (some space, w)
  pub flushes : (o : Option Ptr) (w : World) → spaces.flush_cache o w ≡ ok (tt, w)

-- Destroying an address space does not touch the library's objects either.
abbrev pub IsDestroying : AddrSpaces → Type 0
IsDestroying spaces = (o : Option Ptr) (w : World) → spaces.destroy o w ≡ ok (tt, w)

pub load_thread-ok :
    (w : World) (th : Ptr) (t : Thread) → w.thread th ≡ some t → load_thread th w ≡ ok (t, w)
unfolding load_thread
load_thread-ok w th t h = rw (h, load_thread)

-- A thread with an address space, for which the operations of libunwind are registered.
abbrev pub IsReady : Thread → Type 0
IsReady t = (a : Ptr) × (t.addr_space ≡ some a) × (t.ulops ≡ true)

-- A thread for which the operations are registered, if it has an address space.
abbrev pub IsRegistered : Thread → Type 0
IsRegistered t = (a : Ptr) → t.addr_space ≡ some a → t.ulops ≡ true

-- The thread has an address space, and keeps all else that it has; so do the other threads.
pub record IsPrepared (w : World) (th : Ptr) (t : Thread) (threads : Ptr → Option Thread)
    (t' : Thread) : Type 0 where
  pub live : threads th ≡ some t'
  pub maps : t'.maps ≡ t.maps
  pub refcnt : t'.refcnt ≡ t.refcnt
  pub tgid : t'.tgid ≡ t.tgid
  pub tid : t'.tid ≡ t.tid
  pub name : t'.name ≡ t.name
  pub ready : IsRegistered t → IsReady t'
  pub others : (q : Ptr) → ¬ (th ≡ q) → threads q ≡ w.thread q

module _ (spaces : AddrSpaces) (c : IsCreating spaces) where
  register-Thread :
      (w : World) (th : Ptr) (t : Thread)
      → register spaces th t w
        ≡ ok (
          pos 0,
          record w {
            thread =
                update
                  (update w.thread th (some (record t { ulops = true })))
                  th
                  (some (record t { ulops = true; addr_space = some c.space }));
          },
        )
  unfolding register set_addr_space store_thread
  register-Thread w th t =
      let w₁ : World = record w {
        thread = update w.thread th (some (record t { ulops = true }));
      } in
      rw (c.creates w₁, ◌>>=◌)
        (rw (
          load_thread-ok w₁ th (record t { ulops = true })
              (update_same w.thread th (some (record t { ulops = true }))),
          ◌>>=◌,
        ))

  pub flush_access-quiet :
      (w : World) (th : Ptr) (t : Thread)
      → w.thread th ≡ some t
      → flush_access spaces th w ≡ ok (tt, w)
  unfolding flush_access
  flush_access-quiet w th t live =
      rw (load_thread-ok w th t live, ◌>>=◌)
        (elim (Bool-cases t.ulops) [ inl e ↦ rw e (c.flushes t.addr_space w) | inr e ↦ rw e ])

  -- Only the thread changes, which keeps its maps and references.
  pub prepare_access-Thread :
      (w : World) (th : Ptr) (t : Thread)
      → w.thread th ≡ some t
      → (threads : Ptr → Option Thread) × (t' : Thread) × (prepare_access spaces th w
          ≡ ok (pos 0, record w { thread = threads }))
        × IsPrepared w th t threads t'
  prepare_access-Thread w th t live = by_space (t.addr_space) refl
    where
      by_space :
          (o : Option Ptr)
          → t.addr_space ≡ o
          → (threads : Ptr → Option Thread) × (t' : Thread) × (prepare_access spaces th w
              ≡ ok (pos 0, record w { thread = threads }))
            × IsPrepared w th t threads t'
      by_space none e = (
        update (update w.thread th (some (record t { ulops = true }))) th
            (some (record t { ulops = true; addr_space = some c.space })),
        record t { ulops = true; addr_space = some c.space },
        (unfold prepare_access in
            rw (load_thread-ok w th t live, ◌>>=◌)
              (ap (λ o. prepare_unless spaces o th t w) e ∙ register-Thread w th t)),
        record {
          live =
              update_same (update w.thread th (some (record t { ulops = true }))) th
                (some (record t { ulops = true; addr_space = some c.space }));
          maps = refl;
          refcnt = refl;
          tgid = refl;
          tid = refl;
          name = refl;
          ready = λ r. (c.space, refl, refl);
          others = λ q ne. rw (ne→== th q ne);
        },
      )
      by_space (some a) e = (
        w.thread,
        t,
        (unfold prepare_access in
            rw (load_thread-ok w th t live, ◌>>=◌) (ap (λ o. prepare_unless spaces o th t w) e)),
        record {
          live = live;
          maps = refl;
          refcnt = refl;
          tgid = refl;
          tid = refl;
          name = refl;
          ready = λ r. (a, e, r a e);
          others = λ q ne. refl;
        },
      )
