-- ===== src/ProtocolApi/Channel.antt =====
-- main/protocols/sx_protocol_api.c with main/protocols/sx_protocol_manager.c: the channel that a work mode
-- sends to is the one that the manager has started, where the setting names one.
use opensx_serial_server.Prelude.{
  ℕ, ◌≡◌, refl, ap, ◌∙◌, Bool, true, false, ◌&&◌, Option, none, some, List, [], ◌∷◌, if◌then◌else◌,
  Bool-cases, inl, inr,
}
use opensx_serial_server.Prelude.Int.{pos, is_nat}
use opensx_serial_server.Prelude.Text.{CString, c_str, atoi}
use opensx_serial_server.Prelude.Nvs.{Nvs, nvs_get_str}
use opensx_serial_server.Protocols.{Env, init, tcp_mode, uses_tcp, on_network_state, down, local}
use opensx_serial_server.ProtocolApi.{
  Payload, Call, tcp_server_message, tcp_client_message, validate_payload, read_tcp_mode, tcp_send,
  auto,
}

-- The setting of the channel.
abbrev pub tcpconn : Nvs → Option CString
tcpconn nvs = nvs_get_str nvs (c_str "tcpconn") 8

mode_set :
    (nvs : Nvs) (c : ℕ) (cs : CString)
    → nvs.opens ≡ true
    → tcpconn nvs ≡ some (c ∷ cs)
    → (read_tcp_mode nvs ≡ atoi (c ∷ cs)) × (tcp_mode nvs ≡ atoi (c ∷ cs))
unfolding read_tcp_mode tcp_mode
mode_set nvs c cs o e = simp (o, e) (refl, refl)

mode_unset :
    (nvs : Nvs)
    → nvs.opens ≡ true
    → tcpconn nvs ≡ none
    → (read_tcp_mode nvs ≡ pos 0) × (tcp_mode nvs ≡ pos 1)
unfolding read_tcp_mode tcp_mode
mode_unset nvs o e = simp (o, e) (refl, refl)

abbrev chosen : Payload → Bool → List Call
chosen p is_client = if is_client then tcp_client_message p ∷ [] else tcp_server_message p ∷ []

-- What is sent to either channel, if the data is valid.
sent-auto :
    (nvs : Nvs) (p : Payload)
    → validate_payload (some p) ≡ some p
    → (tcp_send nvs auto (some p)).1 ≡ (
        if is_nat (read_tcp_mode nvs) 1
        then tcp_client_message p ∷ []
        else tcp_server_message p ∷ [])
unfolding tcp_send
sent-auto nvs p v = elim (Bool-cases (is_nat (read_tcp_mode nvs) 1)) [
  | inl c ↦ rw (c, v) refl
  | inr c ↦ rw (c, v) refl
]

and_true : (b : Bool) → (b && true) ≡ b
and_true true = refl
and_true false = refl

started_channels :
    (env : Env)
    → env.nvs.opens ≡ true
    → uses_tcp env.nvs ≡ true
    → let s = (on_network_state env down local init).0 in
      (s.tcp_server_started ≡ is_nat (tcp_mode env.nvs) 0)
      × (s.tcp_client_started ≡ is_nat (tcp_mode env.nvs) 1)
unfolding on_network_state
started_channels env o u =
    simp (o, u) (and_true (is_nat (tcp_mode env.nvs) 0), and_true (is_nat (tcp_mode env.nvs) 1))

-- The network comes up with TCP in use. Where the setting names a channel, a work mode that sends valid
-- data by `SX_PROTOCOL_TCP_AUTO` reaches the channel that the protocol manager has started: the client
-- for 1, the server for 0. Where it names none, the manager starts the client, and the data goes to the
-- server, which does not run.
pub tcp_send-channel :
    (env : Env) (p : Payload)
    → env.nvs.opens ≡ true
    → uses_tcp env.nvs ≡ true
    → validate_payload (some p) ≡ some p
    → let s = (on_network_state env down local init).0 in
      let calls = (tcp_send env.nvs auto (some p)).1 in
      ((c : ℕ) (cs : CString)
        → tcpconn env.nvs ≡ some (c ∷ cs)
        → (s.tcp_client_started ≡ is_nat (atoi (c ∷ cs)) 1)
          × (s.tcp_server_started ≡ is_nat (atoi (c ∷ cs)) 0)
          × (calls ≡ (
              if is_nat (atoi (c ∷ cs)) 1
              then tcp_client_message p ∷ []
              else tcp_server_message p ∷ [])))
      × (tcpconn env.nvs ≡ none
          → (s.tcp_client_started ≡ true)
            × (s.tcp_server_started ≡ false)
            × (calls ≡ tcp_server_message p ∷ []))
tcp_send-channel env p o u v =
    let channels = started_channels env o u in
    (
      λ c cs e.
          let set = mode_set env.nvs c cs o e in
          (
            channels.1 ∙ ap (λ z. is_nat z 1) set.1,
            channels.0 ∙ ap (λ z. is_nat z 0) set.1,
            sent-auto env.nvs p v ∙ ap (λ z. chosen p (is_nat z 1)) set.0,
          ),
      λ e.
          let unset = mode_unset env.nvs o e in
          (
            channels.1 ∙ ap (λ z. is_nat z 1) unset.1,
            channels.0 ∙ ap (λ z. is_nat z 0) unset.1,
            sent-auto env.nvs p v ∙ ap (λ z. chosen p (is_nat z 1)) unset.0,
          ),
    )
