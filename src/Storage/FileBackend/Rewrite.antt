-- ===== src/Storage/FileBackend/Rewrite.antt =====
-- What a write to the directory leaves on the disk.
use goff_studio.Base.{
  Bool, true, false, ◌≡◌, ◌≢◌, refl, sym, ap, subst, ◌∙◌, ◌⊎◌, inl, inr, none, some, [], ◌==◌,
  ==_iff, Text, text_eq, is_empty, is_empty_iff, Result, ok, err, ◌>>=◌, >>=-eq-ok, >>-eq-ok,
  refuse_if, arith, Bool-cases, Option-cases,
}
use goff_studio.Storage.{Version, StoredFile, Written, StoreError, conflict, ChangeOp}
use goff_studio.Storage.FileBackend.Atomic.{Swapped, write_atomic-error, write_atomic-Swapped}
use goff_studio.Storage.FileBackend.{
  Disk, resolve, read_file, check_base, prepared, Os, temporary, write_atomic, write_next,
  finish_write, write,
}

ok_same : {A : Type 0} {a b : A} → ◌≡◌ {A = Result StoreError A} (ok a) (ok b) → a ≡ b
ok_same h = cc h

failed :
    {A B : Type 0} (r : Result StoreError A) (rest : A → B) {e : StoreError}
    → (r >>= λ a. ok (rest a)) ≡ err e
    → r ≡ err e
failed (err x) rest h = cc
failed (ok a) rest h = cc h

unchanged :
    (answer : Result StoreError Bool)
    → (answer >>= λ b. refuse_if b conflict) ≡ ok tt
    → answer ≡ ok false
unchanged (ok true) h = cc
unchanged (ok false) h = refl
unchanged (err e) h = cc

module _ (hash : Text → Version) (root : Text) where
  pub read_file-eq-ok :
      (disk : Disk) (path : Text) (f : StoredFile)
      → read_file hash root disk path ≡ ok f
      → (full : Text) × (resolve root path ≡ ok full)
        × (disk full ≡ some f.content)
        × (f.version ≡ hash f.content)
  unfolding read_file
  read_file-eq-ok disk path f h =
      let (full, r, k) = >>=-eq-ok (resolve root path) _ h in
      elim (Option-cases (disk full)) [
        | inl e ↦ absurd (ground (arith, e))
        | inr (content, e) ↦ (full, r, ground (arith, e), ground (arith, e))
      ]

  pub read_file-of_disk :
      (disk : Disk) (path full content : Text)
      → resolve root path ≡ ok full
      → disk full ≡ some content
      → read_file hash root disk path
        ≡ ok (record { path = path; content = content; version = hash content })
  unfolding read_file
  read_file-of_disk disk path full content r d = rw (r, d) refl

  -- The flag in the content is what the editor saw.
  abbrev pub Agrees : ChangeOp → Text → Type 0
  Agrees op content =
      (op.base_version ≡ [])
      ⊎ (hash content ≡ op.base_version)
      ⊎ (op.changed ≡ none)
      ⊎ ((f : Text → Result StoreError Bool) × (op.changed ≡ some f) × (f content ≡ ok false))

  check_base-Agrees :
      (op : ChangeOp) (current : StoredFile)
      → current.version ≡ hash current.content
      → check_base hash root op current ≡ ok tt
      → Agrees op current.content
  unfolding check_base
  check_base-Agrees op current v h = elim (Bool-cases (is_empty op.base_version)) [
    | inl e ↦ inl ((is_empty_iff op.base_version).0 e)
    | inr n ↦ elim (Bool-cases (current.version == op.base_version)) [
      | inl e ↦ inr (inl (sym v ∙ (==_iff current.version op.base_version).0 e))
      | inr m ↦ elim (Option-cases op.changed) [
        | inl e ↦ inr (inr (inl e))
        | inr (f, e) ↦ inr (inr (inr (f, e, unchanged (f current.content) (ground arith))))
      ]
    ]
  ]

  -- The file system after a write: one file has the new content, and every other but its temporary
  -- one is as it was.
  pub record Rewrites (before : Disk) (op : ChangeOp) (after : Disk) (w : Written) : Type 0 where
    pub full : Text
    pub content : Text
    pub next : Text
    pub resolved : resolve root op.path ≡ ok full
    pub was : before full ≡ some content
    pub agrees : Agrees op content
    pub applied : op.apply content ≡ ok next
    pub now : after full ≡ some next
    pub others : (p : Text) → p ≢ full → p ≢ temporary full → after p ≡ before p
    pub cleared : (after ≡ before) ⊎ (after (temporary full) ≡ none)
    pub version : w.version ≡ hash next

  -- What Write has found before it compares.
  record Found (disk : Disk) (op : ChangeOp) (current : StoredFile) (next : Text) : Type 0 where
    full : Text
    resolved : resolve root op.path ≡ ok full
    was : disk full ≡ some current.content
    version : current.version ≡ hash current.content
    agrees : Agrees op current.content
    applied : op.apply current.content ≡ ok next

  prepared-Found :
      (disk : Disk) (op : ChangeOp) (current : StoredFile) (next : Text)
      → prepared hash root disk op ≡ ok (current, next)
      → Found disk op current next
  unfolding prepared
  prepared-Found disk op current next h =
      let (f, r, h1) = >>=-eq-ok (read_file hash root disk op.path) _ h in
      let (c, h2) = >>-eq-ok (check_base hash root op f) _ h1 in
      let (n, a, h3) = >>=-eq-ok (op.apply f.content) _ h2 in
      let (full, res, was, v) = read_file-eq-ok disk op.path f r in
      let same : f ≡ current = cc h3 in
      let same_next : n ≡ next = cc h3 in
      subst (λ x. Found disk op x next) same
        (record {
          full = full;
          resolved = res;
          was = was;
          version = v;
          agrees = check_base-Agrees op f v c;
          applied = a ∙ ap (λ x. ok x) same_next;
        })

  module _ (os : Os) where
    Rewrites-kept :
        (disk after : Disk) (op : ChangeOp) (current : StoredFile) (next : Text) (w : Written)
        → Found disk op current next
        → next ≡ current.content
        → after ≡ disk
        → w.version ≡ current.version
        → Rewrites disk op after w
    Rewrites-kept disk after op current next w f e d v = record {
      full = f.full;
      content = current.content;
      next = next;
      resolved = f.resolved;
      was = f.was;
      agrees = f.agrees;
      applied = f.applied;
      now = ap (λ g. g f.full) d ∙ f.was ∙ ap some (sym e);
      others = λ p _ _. ap (λ g. g p) d;
      cleared = inl d;
      version = v ∙ f.version ∙ ap hash (sym e);
    }

    Rewrites-of_Swapped :
        (disk after : Disk) (op : ChangeOp) (current : StoredFile) (next : Text) (w : Written)
        → (f : Found disk op current next) → Swapped os disk f.full next after
        → w.version ≡ hash next
        → Rewrites disk op after w
    Rewrites-of_Swapped disk after op current next w f s v = record {
      full = f.full;
      content = current.content;
      next = next;
      resolved = f.resolved;
      was = f.was;
      agrees = f.agrees;
      applied = f.applied;
      now = s.now;
      others = s.others;
      cleared = inr s.cleared;
      version = v;
    }

    finish_write-Rewrites :
        (disk after : Disk) (op : ChangeOp) (current : StoredFile) (next : Text) (w : Written)
        → Found disk op current next
        → finish_write os hash root disk op current next ≡ (ok w, after)
        → Rewrites disk op after w
    unfolding finish_write write_next
    finish_write-Rewrites disk after op current next w f h =
        elim (Bool-cases (next == current.content)) [
          | inl e ↦
              let k = rw e at h in
              Rewrites-kept disk after op current next w f ((==_iff next current.content).0 e)
                (sym (ap (λ x. x.1) k)) (ap (λ x. x.version) (sym (ok_same (ap (λ x. x.0) k))))
          | inr e ↦
              let k = rw (e, f.resolved) at h in
              let (u, done, same) =
                >>=-eq-ok ((write_atomic os disk f.full next).0) _ (ap (λ x. x.0) k) in
              Rewrites-of_Swapped disk after op current next w f
                (subst (Swapped os disk f.full next) (ap (λ x. x.1) k)
                  (write_atomic-Swapped os disk f.full next done))
                (ap (λ x. x.version) (sym (ok_same same)))
        ]

    -- A write that succeeds has put Apply's result for the file's content in its place, the editor's
    -- view of the flag in that content being up to date, and has touched no other file but the
    -- temporary one beside it, which is gone if anything was written.
    pub write-Rewrites :
        (disk after : Disk) (op : ChangeOp) (w : Written)
        → write os hash root disk op ≡ (ok w, after)
        → Rewrites disk op after w
    unfolding write
    write-Rewrites disk after op w h = by_preparation (prepared hash root disk op) refl h
      where
        by_preparation :
            (r : Result StoreError (StoredFile × Text))
            → prepared hash root disk op ≡ r
            → elim r as (λ _. Result StoreError Written × Disk) [
              | err e ↦ (err e, disk)
              | ok p ↦ finish_write os hash root disk op (p.0) (p.1)
            ]
              ≡ (ok w, after)
            → Rewrites disk op after w
        by_preparation (err e) q k = absurd (cc (ap (λ x. x.0) k))
        by_preparation (ok (current, next)) q k =
            finish_write-Rewrites disk after op current next w
              (prepared-Found disk op current next q) k

    finish_write-error :
        (disk after : Disk) (op : ChangeOp) (current : StoredFile) (next p : Text) (e : StoreError)
        → finish_write os hash root disk op current next ≡ (err e, after)
        → ¬ ((full : Text) × (resolve root op.path ≡ ok full) × (p ≡ temporary full))
        → after p ≡ disk p
    unfolding finish_write write_next
    finish_write-error disk after op current next p e h n =
        elim (Bool-cases (next == current.content)) [
          | inl t ↦ absurd (cc (ap (λ x. x.0) (rw t at h)))
          | inr f ↦ by_path (resolve root op.path) refl (rw f at h)
        ]
      where
        by_path :
            (r : Result StoreError Text)
            → resolve root op.path ≡ r
            → elim r as (λ _. Result StoreError Written × Disk) [
              | err x ↦ (err x, disk)
              | ok full ↦ write_next os hash root disk op current next full
            ]
              ≡ (err e, after)
            → after p ≡ disk p
        by_path (err x) q k = ap (λ y. y.1 p) (sym k)
        by_path (ok full) q k =
            ap (λ y. y.1 p) (sym k)
            ∙ write_atomic-error os disk full next p
                (failed ((write_atomic os disk full next).0) _ (ap (λ y. y.0) k))
                (λ t. n (full, q, t))

    -- A write that fails, for whatever reason, leaves every file but the temporary one beside its
    -- own as it was.
    pub write_error-keeps :
        (disk after : Disk) (op : ChangeOp) (e : StoreError) (p : Text)
        → write os hash root disk op ≡ (err e, after)
        → ¬ ((full : Text) × (resolve root op.path ≡ ok full) × (p ≡ temporary full))
        → after p ≡ disk p
    unfolding write
    write_error-keeps disk after op e p h n = by_preparation (prepared hash root disk op) h
      where
        by_preparation :
            (r : Result StoreError (StoredFile × Text))
            → elim r as (λ _. Result StoreError Written × Disk) [
              | err x ↦ (err x, disk)
              | ok q ↦ finish_write os hash root disk op (q.0) (q.1)
            ]
              ≡ (err e, after)
            → after p ≡ disk p
        by_preparation (err x) k = ap (λ y. y.1 p) (sym k)
        by_preparation (ok (current, next)) k =
            finish_write-error disk after op current next p e k n
