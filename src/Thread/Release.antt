-- ===== src/Thread/Release.antt =====
-- The handle of a Thread of atpdxy/thread.cpp: `join` and the destructor.
use atpdxy.Common.{ℕ, zero, suc, ◌≡◌, refl, ap, Option, none, some, List, [], ◌∷◌, ◌++◌}
use atpdxy.Common.Result.{Result, ok, ◌>>=◌}
use atpdxy.Thread.{Thread, Call, joins, detaches, join, join_of, destroy, destroy_of}

-- The calls on the handle when a thread is joined so many times and then destroyed, where
-- pthread_join succeeds.
unfoldable pub joined : ℕ → Thread → Result (List Call)
joined zero t = ok (destroy t)
joined (suc n) t = do (t', cs) ← join 0 t; rest ← joined n t'; ok (cs ++ rest)

join-none : (t : Thread) → t.handle ≡ none → join 0 t ≡ ok (t, [])
unfolding join
join-none t e = ap (λ o. join_of 0 o t) e

destroy_lem : (t : Thread) {o : Option ℕ} → t.handle ≡ o → destroy t ≡ destroy_of o
unfolding destroy
destroy_lem t e = ap destroy_of e

joined-none : (n : ℕ) (t : Thread) → t.handle ≡ none → joined n t ≡ ok []
unfolding joined destroy
joined-none zero t e = ap ok (destroy_lem t e)
joined-none (suc n) t e = rw (join-none t e, joined-none n t e)

-- The call that gives the handle back.
abbrev pub release : ℕ → ℕ → Call
release zero h = detaches h
release (suc n) h = joins h

-- A Thread that has a handle, is joined any number of times and then destroyed, where
-- pthread_join succeeds, gives its handle back exactly once: by pthread_join if it was joined at
-- all, else by pthread_detach.
pub joined_lem : (n h : ℕ) (t : Thread) → t.handle ≡ some h → joined n t ≡ ok (release n h ∷ [])
unfolding joined destroy join
joined_lem zero h t e = ap ok (destroy_lem t e)
joined_lem (suc n) h t e =
    let first : join 0 t ≡ ok (record t { handle = none }, joins h ∷ []) =
      ap (λ o. join_of 0 o t) e in
    rw (first, joined-none n (record t { handle = none }) refl)
