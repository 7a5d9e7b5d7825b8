-- ===== src/Files/Retention.antt =====
-- What the daily job does to the trash.
use mathlib.Core.List.{append-nil}
use aamenn_backend.Base.{
  Bool, List, Option-cases, [], ap, arith, false, inl, inr, refl, select, ℕ, ◌+◌, ◌∙◌, ◌∷◌, ◌≡◌,
}
use aamenn_backend.Table.{delete_keys}
use aamenn_backend.Entities.Accounts.{User, user_entity}
use aamenn_backend.Entities.Library.{File, file_entity}
use aamenn_backend.Entities.Scalars.{Uuid, days}
use aamenn_backend.Files.Cleanup.{
  is_expired_of, purge_expired_trash, purge_loop, purge_user_expired_trash,
}
use aamenn_backend.Files.Store.{Drive, Env}

never_expired :
    (env : Env) (u : Uuid) (retention_days : ℕ) (f : File)
    → is_expired_of env u retention_days f ≡ false
unfolding days
never_expired env u r f = elim (Option-cases f.deleted_at) [
  | inl e ↦ rw e (ground arith)
  | inr (t, e) ↦ rw e (ground arith)
]

select-none : (q : File → Bool) (t : List File) → ((f : File) → q f ≡ false) → select q t ≡ []
select-none q [] h = refl
select-none q (f ∷ t) h = rw (h f) (select-none q t h)

delete_keys-nil : (t : List File) → delete_keys [] t ≡ t
delete_keys-nil [] = refl
delete_keys-nil (f ∷ t) = ap (λ fs. f ∷ fs) (delete_keys-nil t)

purge_user_expired_trash-unchanged :
    (env : Env) (u : Uuid) (r : ℕ) (d : Drive) → purge_user_expired_trash env u r d ≡ (0, d)
unfolding purge_user_expired_trash
purge_user_expired_trash-unchanged env u r d =
    rw
      (
        select-none (is_expired_of env u r) d.files (never_expired env u r),
        delete_keys-nil d.files,
        append-nil d.b2_deletions,
      )
      refl

purge_loop-unchanged : (env : Env) (us : List User) (r : ℕ × Drive) → purge_loop env us r ≡ r
unfolding purge_loop
purge_loop-unchanged env [] r = refl
purge_loop-unchanged env (u ∷ us) (n, d) =
    let e = purge_user_expired_trash-unchanged env u.id u.trash_retention_days d in
    ap (λ (r : ℕ × Drive). purge_loop env us (n + r.0, r.1)) e
    ∙ purge_loop-unchanged env us (n + 0, d)
    ∙ ap (λ k. (k, d)) (let e : n + 0 ≡ n = omega arith in e)

-- The job purges nothing, and changes nothing, whatever the files, the users and the clock: its
-- query asks for rows in the trash, and leaves those out.
pub purge_expired_trash-unchanged : (env : Env) (d : Drive) → purge_expired_trash env d ≡ (0, d)
unfolding purge_expired_trash
purge_expired_trash-unchanged env d = purge_loop-unchanged env d.users (0, d)
