-- ===== src/Repository/Hydrate/Digests.antt =====
-- What the checksums of `hydrate_runtime` say of the rows.
use contextql_server.Prelude.{
  ℕ, ⊤, String, true, false, Option, none, some, List, [], ◌∷◌, filter, find, str_eq, eq_iff, ◌≡◌,
  arith, All, Bool-cases, inl, inr,
}
use contextql_server.Errors.{ok}
use contextql_server.Repository.{SnapshotState, PayloadRow, SnapshotRow, payload_at}
use contextql_server.Repository.Snapshots.{Codec}
use contextql_server.Repository.Hydrate.{is_published, with_payload, joined, scores_match, verify}

abbrev pub Passes : Codec → SnapshotRow × PayloadRow → Type 0
Passes codec x = verify codec x.0 x.1 ≡ ok tt

-- The bytes of a payload, by the digests that the row of the snapshot records.
abbrev pub HasDigest : Codec → Option (List ℕ) → String → Type 0
HasDigest codec none digest = ⊤
HasDigest codec (some blob) digest = codec.sha256 blob ≡ digest

abbrev pub HasChecksums : Codec → SnapshotRow → PayloadRow → Type 0
HasChecksums codec s p =
    (codec.sha256 p.membership_blob ≡ s.membership_sha256)
    × HasDigest codec p.score_blob s.score_sha256

-- A published snapshot that has a payload has its checksums.
abbrev pub CheckedFor : Codec → SnapshotRow → SnapshotState → Option PayloadRow → Type 0
CheckedFor codec s SnapshotState.building o = ⊤
CheckedFor codec s SnapshotState.current none = ⊤
CheckedFor codec s SnapshotState.superseded none = ⊤
CheckedFor codec s SnapshotState.current (some p) = HasChecksums codec s p
CheckedFor codec s SnapshotState.superseded (some p) = HasChecksums codec s p

abbrev pub IsChecked : Codec → List PayloadRow → SnapshotRow → Type 0
IsChecked codec payloads s =
    CheckedFor codec s s.state (find (payload_at s.context_id s.version) payloads)

digests-HasDigest :
    (codec : Codec) (o : Option (List ℕ)) (digest : String)
    → scores_match codec o digest ≡ true
    → HasDigest codec o digest
digests-HasDigest codec none digest h = tt
digests-HasDigest codec (some blob) digest h = (eq_iff (codec.sha256 blob) digest).0 h

verify-HasChecksums :
    (codec : Codec) (s : SnapshotRow) (p : PayloadRow)
    → verify codec s p ≡ ok tt
    → HasChecksums codec s p
verify-HasChecksums codec s p h =
    elim (Bool-cases (str_eq (codec.sha256 p.membership_blob) s.membership_sha256)) [
      | inr other ↦ absurd (let x = rw other at h in ground arith)
      | inl same ↦ elim (Bool-cases (scores_match codec p.score_blob s.score_sha256)) [
        | inr other ↦ absurd (let x = rw (same, other) at h in ground arith)
        | inl scores ↦ (
          (eq_iff (codec.sha256 p.membership_blob) s.membership_sha256).0 same,
          digests-HasDigest codec p.score_blob s.score_sha256 scores,
        )
      ]
    ]

abbrev pub HasChecksumsIn : Codec → SnapshotRow → Option PayloadRow → Type 0
HasChecksumsIn codec s none = ⊤
HasChecksumsIn codec s (some p) = HasChecksums codec s p

with_payload-HasChecksumsIn :
    (codec : Codec) (o : Option PayloadRow) (s : SnapshotRow)
    (rest : List (SnapshotRow × PayloadRow)) (B : Type 0)
    → (All (Passes codec) rest → B)
    → All (Passes codec) (with_payload o s rest)
    → HasChecksumsIn codec s o × B
with_payload-HasChecksumsIn codec none s rest B f h = (tt, f h)
with_payload-HasChecksumsIn codec (some p) s rest B f h = (verify-HasChecksums codec s p h.0, f h.1)

-- What is restored with its checksums, row by row of the join.
abbrev pub JoinChecked : Codec → List PayloadRow → SnapshotRow → Type 0
JoinChecked codec payloads s =
    HasChecksumsIn codec s (find (payload_at s.context_id s.version) payloads)

pub joined-JoinChecked :
    (codec : Codec) (payloads : List PayloadRow) (rows : List SnapshotRow)
    → All (Passes codec) (joined payloads rows)
    → All (JoinChecked codec payloads) rows
joined-JoinChecked codec payloads [] h = tt
joined-JoinChecked codec payloads (s ∷ rows) h =
    with_payload-HasChecksumsIn codec (find (payload_at s.context_id s.version) payloads) s
      (joined payloads rows) (All (JoinChecked codec payloads) rows)
      (joined-JoinChecked codec payloads rows) h

published-CheckedFor :
    (codec : Codec) (s : SnapshotRow) (state : SnapshotState) (o : Option PayloadRow)
    → HasChecksumsIn codec s o
    → CheckedFor codec s state o
published-CheckedFor codec s SnapshotState.building o h = tt
published-CheckedFor codec s SnapshotState.current none h = tt
published-CheckedFor codec s SnapshotState.superseded none h = tt
published-CheckedFor codec s SnapshotState.current (some p) h = h
published-CheckedFor codec s SnapshotState.superseded (some p) h = h

unpublished-CheckedFor :
    (codec : Codec) (s : SnapshotRow) (state : SnapshotState) (o : Option PayloadRow)
    → is_published state ≡ false
    → CheckedFor codec s state o
unpublished-CheckedFor codec s SnapshotState.building o h = tt
unpublished-CheckedFor codec s SnapshotState.current o h = absurd (ground arith)
unpublished-CheckedFor codec s SnapshotState.superseded o h = absurd (ground arith)

pub published-IsChecked :
    (codec : Codec) (payloads : List PayloadRow) (rows : List SnapshotRow)
    → All (JoinChecked codec payloads) (filter (λ s. is_published s.state) rows)
    → All (IsChecked codec payloads) rows
published-IsChecked codec payloads [] h = tt
published-IsChecked codec payloads (s ∷ rows) h = elim (Bool-cases (is_published s.state)) [
  | inl e ↦
      let (own, rest) : JoinChecked codec payloads s
          × All (JoinChecked codec payloads) (filter (λ s. is_published s.state) rows) =
        rw e at h in
      (published-CheckedFor codec s s.state _ own, published-IsChecked codec payloads rows rest)
  | inr e ↦ (
    unpublished-CheckedFor codec s s.state _ e,
    published-IsChecked codec payloads rows (rw e at h),
  )
]
