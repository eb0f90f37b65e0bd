-- ===== src/EpollServer/Setup.antt =====
-- The calls that `start` and `handleClientData` make.
use trading_matcher.Base.{
  ℕ, ◌≡◌, ◌≢◌, refl, ◌⊎◌, inl, inr, ℤ, pos, ◌<ℤ◌, true, false, Bool-cases, List, [], ◌∷◌, ◌++◌,
  arith,
}
use trading_matcher.Network.{SocketOption, Call, Os, failed, is_again, did}
use trading_matcher.EpollServer.{EpollServer, tune, start, handle_client_data}

-- What a successful `start` calls.
abbrev pub setup : ℕ → ℤ → ℤ → List Call
setup port epoll fd =
    Call.epoll_create1
    ∷ Call.stream_socket
    ∷ Call.setsockopt fd SocketOption.reuse_addr 1
    ∷ Call.setsockopt fd SocketOption.reuse_port 1
    ∷ Call.setsockopt fd SocketOption.no_delay 1
    ∷ Call.bind fd port
    ∷ Call.listen fd
    ∷ Call.epoll_add epoll fd
    ∷ []

-- `start` makes the calls of `setup` in their order, up to the first of `epoll_create1`, `socket`,
-- `bind` and `listen` that fails; it returns true exactly if it has made them all, and then both
-- descriptors are valid.
pub start-setup :
    (os : Os) (server : EpollServer)
    → let (server', calls, ok) = start os server [] in
      (rest : List Call) × (calls ++ rest ≡ setup server.port server'.epoll_fd server'.listen_fd)
      × (((ok ≡ true)
            × (rest ≡ [])
            × (failed server'.epoll_fd ≡ false)
            × (failed server'.listen_fd ≡ false))
          ⊎ ((ok ≡ false) × (rest ≢ [])))
unfolding start
start-setup os server = elim (Bool-cases (failed epoll)) [
  | inl e ↦ rw e (_, refl, inr (refl, ground arith))
  | inr e ↦ rw e (elim (Bool-cases (failed fd)) [
    | inl f ↦ rw f (_, refl, inr (refl, ground arith))
    | inr f ↦ rw f (elim (Bool-cases (failed (os bound (Call.bind fd server.port)).value)) [
      | inl g ↦ rw g (_, refl, inr (refl, ground arith))
      | inr g ↦
          rw g
            (elim (Bool-cases
              (failed (os (did bound (Call.bind fd server.port)) (Call.listen fd)).value)) [
                | inl h ↦ rw h (_, refl, inr (refl, ground arith))
                | inr h ↦ rw h ([], refl, inl (refl, refl, e, f))
              ])
    ])
  ])
]
  where
    epoll : ℤ
    epoll = (os [] Call.epoll_create1).value

    fd : ℤ
    fd = (os (did [] Call.epoll_create1) Call.stream_socket).value

    bound : List Call
    bound = tune fd (did (did [] Call.epoll_create1) Call.stream_socket)

-- `handleClientData` reads once. At the end of the stream, and on an error other than EAGAIN, the
-- descriptor leaves the epoll set and is closed; on EAGAIN nothing more happens; otherwise the handler
-- gets the data with its length.
pub handle_client_data_lem :
    (os : Os) (server : EpollServer) (fd : ℤ) (calls : List Call)
    → let reply = os calls (Call.read fd 4095) in
      let asked = did calls (Call.read fd 4095) in
      let calls' = handle_client_data os server fd calls in
      ((pos 0 <ℤ reply.value) × (calls' ≡ did asked (Call.handler fd reply.bytes reply.value)))
      ⊎ ((reply.value <ℤ pos 0) × (is_again reply.errno ≡ true) × (calls' ≡ asked))
      ⊎ (((reply.value ≡ pos 0) ⊎ (is_again reply.errno ≡ false))
          × (calls' ≡ did (did asked (Call.epoll_del server.epoll_fd fd)) (Call.close fd)))
unfolding handle_client_data
handle_client_data_lem os server fd calls =
    elim (Bool-cases (is_again (os calls (Call.read fd 4095)).errno)) [
      | inl e ↦ rw (e, handle_client_data) (ground arith)
      | inr e ↦ rw (e, handle_client_data) (ground arith)
    ]
