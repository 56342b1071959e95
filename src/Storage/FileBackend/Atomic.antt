-- ===== src/Storage/FileBackend/Atomic.antt =====
-- internal/storage/file.go, writeAtomic: what it leaves on the disk.
use goff_studio.Base.{
  ◌≡◌, ◌≢◌, refl, sym, ap, subst, ◌∙◌, inl, inr, none, some, ◌==◌, ==_iff, ==_refl, Text, text_eq,
  ok, err, Option, codes, length, length-append, arith, Bool-cases, Option-cases,
}
use goff_studio.Storage.{StoreError}
use goff_studio.Storage.FileBackend.{Disk, leave, store, Os, temporary, rename_file, write_atomic}

leave-at : (disk : Disk) (full : Text) (c : Option Text) → leave disk full c full ≡ c
leave-at disk full c = ground (arith, ==_refl full)

leave-off :
    (disk : Disk) (full p : Text) (c : Option Text) → p ≢ full → leave disk full c p ≡ disk p
leave-off disk full p c n = elim (Bool-cases (p == full)) [
  | inl e ↦ absurd (n ((==_iff p full).0 e))
  | inr e ↦ rw e
]

pub temporary-differs : (path : Text) → path ≢ temporary path
unfolding temporary
temporary-differs path e =
    absurd (omega (arith, ap length e, length-append path (codes ".tmp"), four))
  where
    four : length (codes ".tmp") ≡ 4
    four = refl

module _ (os : Os) where
  rename_file-error :
      (disk : Disk) (from to : Text) {e : StoreError}
      → (rename_file os disk from to).0 ≡ err e
      → (rename_file os disk from to).1 ≡ disk
  unfolding rename_file
  rename_file-error disk from to h = elim (Option-cases (os.rename_fault disk from to)) [
    | inr (e, r) ↦ rw (rename_file, r) refl
    | inl r ↦ absurd (cc (rw (rename_file, r) at h))
  ]

  rename_file-ok :
      (disk : Disk) (from to : Text)
      → (rename_file os disk from to).0 ≡ ok tt
      → (rename_file os disk from to).1 ≡ leave (leave disk to (disk from)) from none
  unfolding rename_file
  rename_file-ok disk from to h = elim (Option-cases (os.rename_fault disk from to)) [
    | inr (e, r) ↦ absurd (cc (rw (rename_file, r) at h))
    | inl r ↦ rw (rename_file, r) refl
  ]

  -- Where the operating system refuses, writeAtomic has touched no file but the temporary one.
  pub write_atomic-error :
      (disk : Disk) (path content p : Text) {e : StoreError}
      → (write_atomic os disk path content).0 ≡ err e
      → p ≢ temporary path
      → (write_atomic os disk path content).1 p ≡ disk p
  unfolding write_atomic
  write_atomic-error disk path content p h n =
      elim (Option-cases (os.write_fault disk (temporary path) content)) [
        | inr ((e, left), w) ↦ rw (write_atomic, w) (leave-off disk (temporary path) p left n)
        | inl w ↦
            let written = store disk (temporary path) content in
            rw (write_atomic, w)
              (ap (λ g. g p)
                  (rename_file-error written (temporary path) path (rw (write_atomic, w) at h))
                ∙ leave-off disk (temporary path) p (some content) n)
      ]

  -- The disk after writeAtomic has succeeded.
  pub record Swapped (disk : Disk) (path content : Text) (after : Disk) : Type 0 where
    pub now : after path ≡ some content
    pub cleared : after (temporary path) ≡ none
    pub others : (p : Text) → p ≢ path → p ≢ temporary path → after p ≡ disk p

  Swapped-moved :
      (disk : Disk) (path content : Text)
      → (let written = store disk (temporary path) content in
          Swapped disk path content
            (leave (leave written path (written (temporary path))) (temporary path) none))
  Swapped-moved disk path content =
      let tmp = temporary path in
      let written = store disk tmp content in
      let moved = leave written path (written tmp) in
      record {
        now =
            leave-off moved tmp path none (temporary-differs path)
            ∙ leave-at written path (written tmp)
            ∙ leave-at disk tmp (some content);
        cleared = leave-at moved tmp none;
        others = λ p n m.
            leave-off moved tmp p none m
            ∙ leave-off written path p (written tmp) n
            ∙ leave-off disk tmp p (some content) m;
      }

  pub write_atomic-Swapped :
      (disk : Disk) (path content : Text)
      → (write_atomic os disk path content).0 ≡ ok tt
      → Swapped disk path content (write_atomic os disk path content).1
  unfolding write_atomic
  write_atomic-Swapped disk path content h =
      elim (Option-cases (os.write_fault disk (temporary path) content)) [
        | inr ((e, left), w) ↦ absurd (cc (rw (write_atomic, w) at h))
        | inl w ↦
            let moved =
              rename_file-ok (store disk (temporary path) content) (temporary path) path
                (rw (write_atomic, w) at h) in
            rw (write_atomic, w)
              (subst (Swapped disk path content) (sym moved) (Swapped-moved disk path content))
      ]
