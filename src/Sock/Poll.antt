-- ===== src/Sock/Poll.antt =====
-- The polling functions of src/lib/middfs-sock.c: which connection waits for what.
use middfs.Common.{ℕ, ◌+◌, ◌≤◌, ◌≡◌, refl, ap, ◌∙◌, arith, List, [], ◌∷◌, ◌++◌, Bool, true, false}
use middfs.Common.{Option, none, some, if◌then◌else◌, length, All, ltb, ◌>>=◌, ◌||◌}
use middfs.Common.{ℤ, pos, negsuc, is_neg, minus_one, length-append, Bool-cases, lt→ltb, inl, inr}
use middfs.Util.{sizerem, sizerem_le}
use middfs.Sock.{SockType, SockState, Sockend, Sockinfo, Socks}
use middfs.Sock.{mfd_none, mfd_pkt_in, mfd_pkt_out, mfd_lstn}
use middfs.Sock.{mss_none, mss_closed, mss_lstn, mss_reqrd, mss_rspwr, mss_reqfwd, mss_rspfwd}

-- An element of the array that poll(2) gets. `revents_of` is the end whose pointer `revents` is made to
-- point to the result in this element; middfs_sockend_check gets that result as a value.
pub record Pollfd : Type 0 where
  pub fd : ℤ
  pub events : ℕ
  pub revents_of : Sockend

abbrev pub pollin : ℕ
pollin = 1

abbrev pub pollout : ℕ
pollout = 4

-- `st == MSS_LSTN || st == MSS_REQRD || st == MSS_RSPFWD`
abbrev pub waits_to_read : SockState → Bool
waits_to_read mss_lstn = true
waits_to_read mss_reqrd = true
waits_to_read mss_rspfwd = true
waits_to_read mss_none = false
waits_to_read mss_closed = false
waits_to_read mss_rspwr = false
waits_to_read mss_reqfwd = false

-- `st == MSS_RSPWR || st == MSS_REQFWD`
abbrev pub waits_to_write : SockState → Bool
waits_to_write mss_rspwr = true
waits_to_write mss_reqfwd = true
waits_to_write mss_none = false
waits_to_write mss_closed = false
waits_to_write mss_lstn = false
waits_to_write mss_reqrd = false
waits_to_write mss_rspfwd = false

-- The number of entries that are called for, and those written into the `nfds` places that are
-- there. No function ever sets `*errp`, which is 0 throughout.
unfoldable pub middfs_sockend_pollfd : ℕ → ℕ → Sockend → Option (ℕ × List Pollfd)
middfs_sockend_pollfd nfds polarity e =
    if is_neg e.fd
    then none
    else some
        (1, if ltb 0 nfds then record { fd = e.fd; events = polarity; revents_of = e } ∷ [] else [])

abbrev pub is_none_type : SockType → Bool
is_none_type mfd_none = true
is_none_type mfd_pkt_in = false
is_none_type mfd_pkt_out = false
is_none_type mfd_lstn = false

-- No connection waits for both, so that the entries start at `used` = 0.
unfoldable pub middfs_sockinfo_pollfds : ℕ → Sockinfo → Option (ℕ × List Pollfd)
middfs_sockinfo_pollfds nfds info =
    if is_none_type info.type
    then some (0, [])
    else if waits_to_read info.state
    then middfs_sockend_pollfd nfds pollin info.in_end
    else if waits_to_write info.state
    then middfs_sockend_pollfd nfds pollout info.out_end
    else some (0, [])

-- The loop, with the entries used so far.
unfoldable pub pollfds_loop : ℕ → ℕ → List Sockinfo → Option (ℕ × List Pollfd)
pollfds_loop nfds used [] = some (used, [])
pollfds_loop nfds used (info ∷ infos) = do
  (n, pfds) ← middfs_sockinfo_pollfds (sizerem nfds used) info
  (total, rest) ← pollfds_loop nfds (used + n) infos
  some (total, pfds ++ rest)

unfoldable pub middfs_socks_pollfds : ℕ → Socks → Option (ℕ × List Pollfd)
middfs_socks_pollfds nfds socks = pollfds_loop nfds 0 socks.sockinfos

abbrev pub pollerr : ℕ
pollerr = 8

abbrev pub pollhup : ℕ
pollhup = 16

-- What poll(2) has left in the entry of an end: an error, a hangup, or the events.
pub data Revents : Type 0 where
  error_set hup_set : Revents
  events : ℕ → Revents

unfoldable pub middfs_sockend_check : Revents → Sockend → ℤ
middfs_sockend_check error_set e = if is_neg e.fd then pos 0 else minus_one
middfs_sockend_check hup_set e = if is_neg e.fd then pos 0 else minus_one
middfs_sockend_check (events bits) e = if is_neg e.fd then pos 0 else pos bits

abbrev pub nonneg : ℤ → ℕ
nonneg (pos n) = n
nonneg (negsuc n) = 0

-- At most one of the ends is looked at, so that the combined mask is the mask of that end.
unfoldable pub middfs_sockinfo_check : Revents → Sockinfo → ℤ × Sockinfo
middfs_sockinfo_check revents info =
    let revents_in =
      if waits_to_read info.state then middfs_sockend_check revents info.in_end else pos 0 in
    let revents_out =
      if waits_to_write info.state then middfs_sockend_check revents info.out_end else pos 0 in
    let mask = nonneg revents_in + nonneg revents_out in
    if is_neg revents_in || is_neg revents_out
    then (minus_one, info)
    else (pos mask, record info { revents = mask })

-- Each entry is closed, or the end that its state waits for is open.
abbrev pub IsPollable : Sockinfo → Type 0
IsPollable info =
    (is_none_type info.type ≡ false
      → waits_to_read info.state ≡ true
      → is_neg info.in_end.fd ≡ false)
    × (is_none_type info.type ≡ false
        → waits_to_write info.state ≡ true
        → is_neg info.out_end.fd ≡ false)

sockend_pollfd-one :
    (nfds polarity : ℕ) (e : Sockend)
    → is_neg e.fd ≡ false
    → (pfds : List Pollfd) × (middfs_sockend_pollfd nfds polarity e ≡ some (1, pfds))
      × (1 ≤ nfds → length pfds ≡ 1)
unfolding middfs_sockend_pollfd
sockend_pollfd-one nfds polarity e h =
    let one : List Pollfd = record { fd = e.fd; events = polarity; revents_of = e } ∷ [] in
    (if ltb 0 nfds then one else [], rw h, λ i. rw (lt→ltb 0 nfds i))

-- What one connection asks for does not depend on the places.
sockinfo_pollfds-total :
    (info : Sockinfo)
    → IsPollable info
    → (n : ℕ) × (n ≤ 1)
      × ((nfds : ℕ)
          → (pfds : List Pollfd) × (middfs_sockinfo_pollfds nfds info ≡ some (n, pfds))
            × (n ≤ nfds → length pfds ≡ n))
unfolding middfs_sockinfo_pollfds
sockinfo_pollfds-total info (r, w) = elim (Bool-cases (is_none_type info.type)) [
  | inl t ↦ (0, omega arith, λ nfds. ([], rw t, λ i. refl))
  | inr t ↦ elim (Bool-cases (waits_to_read info.state)) [
    | inl e ↦ (
      1,
      omega arith,
      λ nfds.
          let (pfds, h, l) = sockend_pollfd-one nfds pollin info.in_end (r t e) in
          (pfds, rw (t, e) h, l),
    )
    | inr e ↦ elim (Bool-cases (waits_to_write info.state)) [
      | inl e2 ↦ (
        1,
        omega arith,
        λ nfds.
            let (pfds, h, l) = sockend_pollfd-one nfds pollout info.out_end (w t e2) in
            (pfds, rw (t, e, e2) h, l),
      )
      | inr e2 ↦ (0, omega arith, λ nfds. ([], rw (t, e, e2), λ i. refl))
    ]
  ]
]

pollfds_loop-total :
    (infos : List Sockinfo)
    → All IsPollable infos
    → (n : ℕ) × (n ≤ length infos)
      × ((nfds used : ℕ)
          → (pfds : List Pollfd) × (pollfds_loop nfds used infos ≡ some (used + n, pfds))
            × (used + n ≤ nfds → length pfds ≡ n))
unfolding pollfds_loop
pollfds_loop-total [] h =
    (0, omega arith, λ nfds used. ([], ap (λ k. some (k, [])) (omega arith), λ i. refl))
pollfds_loop-total (info ∷ infos) (h, hs) =
    let (n, small, one) = sockinfo_pollfds-total info h in
    let (m, most, rest) = pollfds_loop-total infos hs in
    (
      n + m,
      omega arith,
      λ nfds used.
          let (p, e, l) = one (sizerem nfds used) in
          let (q, e2, l2) = rest nfds (used + n) in
          (
            p ++ q,
            rw (e, e2) (ap (λ k. some (k, p ++ q)) (omega arith)),
            λ i. omega (
              arith,
              length-append p q,
              l2 (omega arith),
              l (omega (arith, sizerem_le nfds used (omega arith))),
            ),
          ),
    )

-- When every entry is closed or has the end open that its state waits for, the first pass over the
-- connections, which has no places, and the second pass agree: no assertion fails, both ask for the
-- same number of places, at most one for each connection, and the second pass fills them all.
pub middfs_socks_pollfds-agree :
    (socks : Socks)
    → All IsPollable socks.sockinfos
    → (n : ℕ) × (none_yet : List Pollfd) × (pfds : List Pollfd) × (n ≤ length socks.sockinfos)
      × (middfs_socks_pollfds 0 socks ≡ some (n, none_yet))
      × (middfs_socks_pollfds n socks ≡ some (n, pfds))
      × (length pfds ≡ n)
unfolding middfs_socks_pollfds
middfs_socks_pollfds-agree socks h =
    let (n, most, loop) = pollfds_loop-total socks.sockinfos h in
    let (p, e, l) = loop 0 0 in
    let (q, e2, l2) = loop n 0 in
    (
      n,
      p,
      q,
      most,
      e ∙ ap (λ k. some (k, p)) (omega arith),
      e2 ∙ ap (λ k. some (k, q)) (omega arith),
      l2 (omega arith),
    )
