-- ===== src/Retention/Store.antt =====
-- The laws of reading, writing and deleting that the proofs about lifecycle.py use.
use workspace_governance_con.Prelude.{
  ℕ, ◌≡◌, refl, sym, true, false, some, [], ◌∷◌, ◌++◌, arith, any, Bool-cases, inl, inr,
}
use mathlib.Core.Path.{subst}
use workspace_governance_con.Retention.Lines.{Bytes}
use workspace_governance_con.Retention.Disk.{
  FilePath, File, Disk, Host, path_eq, path_eq→eq, path_eq_iff_refl, at, read, write, overwrite,
}

pub path_eq-apart : (p q : FilePath) → path_eq p q ≡ false → path_eq q p ≡ false
path_eq-apart p q apart = elim (Bool-cases (path_eq q p)) [
  | inl same ↦ let e = path_eq→eq q p same in cc (apart, path_eq_iff_refl p, e)
  | inr other ↦ other
]

module _ (host : Host) where
  read-overwrite :
      (t : FilePath) (b : Bytes) (now : ℕ) (disk : Disk)
      → any (at host t) disk ≡ true
      → read host t (overwrite host t b now disk) ≡ some b
  unfolding read overwrite at
  read-overwrite t b now [] h = cc
  read-overwrite t b now (f ∷ fs) h = ground (arith, read-overwrite t b now fs)

  read-append_new :
      (t : FilePath) (f : File) (disk : Disk)
      → any (at host t) disk ≡ false
      → at host t f ≡ true
      → read host t (disk ++ f ∷ []) ≡ some f.content
  unfolding read
  read-append_new t f [] h e = rw e
  read-append_new t f (g ∷ gs) h e = ground (arith, read-append_new t f gs)

  -- What was written is read.
  pub read-write :
      (t : FilePath) (b : Bytes) (now : ℕ) (disk : Disk)
      → host.resolve t ≡ t
      → read host t (write host t b now disk) ≡ some b
  unfolding write
  read-write t b now disk fixed = elim (Bool-cases (any (at host t) disk)) [
    | inl e ↦ rw e (read-overwrite t b now disk e)
    | inr e ↦ rw e (read-append_new t _ disk e (unfold at in rw fixed (path_eq_iff_refl t)))
  ]

  at_one :
      (t u : FilePath) (f : File) → path_eq t u ≡ false → at host t f ≡ true → at host u f ≡ false
  unfolding at
  at_one t u f apart here =
      subst (λ q. path_eq q u ≡ false) (sym (path_eq→eq (host.resolve f.path) t here)) apart

  read-overwrite_other :
      (t u : FilePath) (b : Bytes) (now : ℕ) (disk : Disk)
      → path_eq t u ≡ false
      → read host u (overwrite host t b now disk) ≡ read host u disk
  unfolding read overwrite
  read-overwrite_other t u b now [] apart = refl
  read-overwrite_other t u b now (f ∷ fs) apart = elim (Bool-cases (at host t f)) [
    | inl e ↦
        let f' : File = record f { content = b; modified = now } in
        rw (e, at_one t u f' apart (unfold at in e)) (read-overwrite_other t u b now fs apart)
    | inr e ↦ rw (e, read-overwrite_other t u b now fs apart)
  ]

  read-append_other :
      (u : FilePath) (f : File) (disk : Disk)
      → at host u f ≡ false
      → read host u (disk ++ f ∷ []) ≡ read host u disk
  unfolding read
  read-append_other u f [] e = rw e
  read-append_other u f (g ∷ gs) e = rw (read-append_other u f gs e)

  -- A write leaves every other file as it was.
  pub read-write_other :
      (t u : FilePath) (b : Bytes) (now : ℕ) (disk : Disk)
      → host.resolve t ≡ t
      → path_eq t u ≡ false
      → read host u (write host t b now disk) ≡ read host u disk
  unfolding write
  read-write_other t u b now disk fixed apart = elim (Bool-cases (any (at host t) disk)) [
    | inl e ↦ rw e (read-overwrite_other t u b now disk apart)
    | inr e ↦ rw e (read-append_other u _ disk (unfold at in rw fixed apart))
  ]
