-- ===== src/Transport/Transfer.antt =====
-- When the upload of a file succeeds, and what it has sent then.
use psychic_funicular.Base.{
  ℕ, ◌≡◌, ◌↔◌, ◌⊎◌, inl, inr, refl, ap, String, none, some, List, [], ◌∷◌, arith, Bool-cases,
  Option-cases, ◌==◌, ==_iff, ◌||◌,
}
use psychic_funicular.Transport.Scp.{
  Bytes, Refusal, Pipe, Chunk, control, data_bytes, scp_control, write_scp, read_ack, await_end,
  send_content, send_header, remote, unexpected, read_line,
}

-- No write fails, and the remote side agrees three times.
pub record Smooth (pipe : Pipe) (answers : Bytes) : Type 0 where
  pub control_ok : pipe.control_fault ≡ none
  pub data_ok : pipe.data_fault ≡ none
  pub end_ok : pipe.end_fault ≡ none
  pub rest : Bytes
  pub agreed : answers ≡ 0 ∷ 0 ∷ 0 ∷ rest

-- The next byte is a zero, or the transfer stops.
ack-cases :
    (r : Bytes)
    → ((why : Refusal) × (left : Bytes) × (read_ack r ≡ (some why, left)))
      ⊎ ((left : Bytes) × (r ≡ 0 ∷ left) × (read_ack r ≡ (none, left)))
unfolding read_ack
ack-cases [] = inl (_, _, refl)
ack-cases (b ∷ r) = elim (Bool-cases (b == 0)) [
  | inl e ↦ inr (r, ap (λ x. x ∷ r) ((==_iff b 0).0 e), rw e refl)
  | inr e ↦ elim (Bool-cases (b == 1 || b == 2)) [
    | inl f ↦ inl (remote (read_line r).0, (read_line r).1, rw (e, f) refl)
    | inr f ↦ inl (unexpected b, r, rw (e, f) refl)
  ]
]

end_agreed : (r : Bytes) → (await_end (read_ack r)).0 ≡ none → (left : Bytes) × (r ≡ 0 ∷ left)
unfolding await_end
end_agreed r h = elim (ack-cases r) [
  | inl (why, left, e) ↦ absurd (ground (arith, rw (e, await_end) at h))
  | inr (left, e, f) ↦ (left, e)
]

content_agreed :
    (pipe : Pipe) (content r : Bytes)
    → (send_content pipe content (read_ack r)).0 ≡ none
    → (pipe.data_fault ≡ none) × (pipe.end_fault ≡ none) × (left : Bytes) × (r ≡ 0 ∷ 0 ∷ left)
unfolding send_content
content_agreed pipe content r h = elim (ack-cases r) [
  | inl (why, left, e) ↦ absurd (ground (arith, rw (e, send_content) at h))
  | inr (left, e, f) ↦ elim (Option-cases pipe.data_fault) [
    | inr (x, g) ↦ absurd (ground (arith, rw (f, send_content, g) at h))
    | inl g ↦ elim (Option-cases pipe.end_fault) [
      | inr (x, k) ↦ absurd (ground (arith, rw (f, send_content, g, k) at h))
      | inl k ↦
          let (more, m) = end_agreed left (rw (f, send_content, g, k) at h) in
          (g, k, more, rw (e, m) refl)
    ]
  ]
]

header_agreed :
    (pipe : Pipe) (answers content : Bytes) (size : ℕ) (name : String)
    → (send_header pipe content size name (read_ack answers)).0 ≡ none
    → Smooth pipe answers
unfolding send_header
header_agreed pipe answers content size name h = elim (ack-cases answers) [
  | inl (why, left, e) ↦ absurd (ground (arith, rw (e, send_header) at h))
  | inr (left, e, f) ↦ elim (Option-cases pipe.control_fault) [
    | inr (x, g) ↦ absurd (ground (arith, rw (f, send_header, g) at h))
    | inl g ↦
        let (ok_data, ok_end, more, m) =
          content_agreed pipe content left (rw (f, send_header, g) at h) in
        record {
          control_ok = g;
          data_ok = ok_data;
          end_ok = ok_end;
          rest = more;
          agreed = rw (e, m) refl;
        }
  ]
]

-- The control line, the content and the byte that ends it.
abbrev pub sent_in_full : Bytes → ℕ → String → List Chunk
unfolding scp_control
sent_in_full content size name =
    control (scp_control size name) ∷ data_bytes content ∷ data_bytes (0 ∷ []) ∷ []

Smooth-write_scp :
    (pipe : Pipe) (answers content : Bytes) (size : ℕ) (name : String)
    → Smooth pipe answers
    → write_scp pipe answers content size name ≡ (none, sent_in_full content size name)
unfolding write_scp send_header send_content await_end read_ack
Smooth-write_scp pipe answers content size name s =
    rw (s.agreed, s.control_ok, s.data_ok, s.end_ok) refl

-- An upload ends without an error exactly if none of its writes fails and the remote side answers with
-- three zero bytes; it has then sent the control line, the whole content and the byte that ends it.
pub scp_succeeds_iff :
    (pipe : Pipe) (answers content : Bytes) (size : ℕ) (name : String)
    → (((write_scp pipe answers content size name).0 ≡ none) ↔ Smooth pipe answers)
      × ((write_scp pipe answers content size name).0 ≡ none
          → (write_scp pipe answers content size name).1 ≡ sent_in_full content size name)
unfolding write_scp
scp_succeeds_iff pipe answers content size name =
    let forth = header_agreed pipe answers content size name in
    let sends = Smooth-write_scp pipe answers content size name in
    ((forth, λ s. ap (λ t. t.0) (sends s)), λ h. ap (λ t. t.1) (sends (forth h)))
