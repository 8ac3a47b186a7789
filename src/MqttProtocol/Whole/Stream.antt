-- ===== src/MqttProtocol/Whole/Stream.antt =====
-- The packets that are cut off are the stream.
use knotfreeiot.Base.{
  ◌^◌, ◌≡◌, ◌⊎◌, inl, inr, refl, sym, ap, ◌∙◌, Bytes, List, [], ◌∷◌, ◌++◌, append-nil, append_assoc,
  some, take-append-drop, ltb, Bool-cases, Option-cases, arith,
}
use knotfreeiot.MqttProtocol.Whole.{
  is_whole_mqtt_packet, Read, waits, packet, panics, read_message, web_socket_loop,
}

abbrev pub concat : List Bytes → Bytes
concat [] = []
concat (bs ∷ bss) = bs ++ concat bss

Read-cases :
    (r : Read)
    → ((b : Bytes) × (r ≡ waits b)) ⊎ ((p : Bytes) × (b : Bytes) × (r ≡ packet p b)) ⊎ (r ≡ panics)
Read-cases (waits b) = inl (b, refl)
Read-cases (packet p b) = inr (inl (p, b, refl))
Read-cases panics = inr (inr refl)

-- What a message leaves, with what it gives, is what there was.
abbrev Content : Read → Bytes → Type 0
Content (waits b) all = b ≡ all
Content (packet p b) all = p ++ b ≡ all
Content panics all = Unit {0}

read_message-Content :
    (buffer message : Bytes) → Content (read_message buffer message) (buffer ++ message)
unfolding read_message
read_message-Content buffer message =
    let all = buffer ++ message in
    let n = (is_whole_mqtt_packet all).1 in
    elim (Bool-cases (is_whole_mqtt_packet all).0) [
      | inr part ↦ rw part refl
      | inl whole ↦ elim (Bool-cases (ltb n (2 ^ 63))) [
        | inl fits ↦ rw whole (rw fits (take-append-drop n all))
        | inr far ↦ rw whole (rw far tt)
      ]
    ]

-- No byte is lost, none comes twice and none out of order: the packets that are handled, one behind
-- the other, with what stays in the buffer, are what was in the buffer with the messages behind it,
-- unless there is a panic.
pub web_socket_loop-concat :
    (messages : List Bytes) (buffer : Bytes) (packets : List Bytes) (left : Bytes)
    → web_socket_loop buffer messages ≡ some (packets, left)
    → concat packets ++ left ≡ buffer ++ concat messages
unfolding web_socket_loop
web_socket_loop-concat [] buffer packets left h =
    let none_yet : packets ≡ [] = cc in
    let same : left ≡ buffer = cc in rw (none_yet, same) (rw append-nil refl)
web_socket_loop-concat (message ∷ messages) buffer packets left h =
    let content = read_message-Content buffer message in
    elim (Read-cases (read_message buffer message)) [
      | inl (b, e) ↦
          web_socket_loop-concat messages b packets left (rw (e, web_socket_loop) at h)
          ∙ (ap (λ (bs : Bytes). bs ++ concat messages) (rw e at content)
              ∙ append_assoc buffer message (concat messages))
      | inr (inl (p, b, e)) ↦ elim (Option-cases (web_socket_loop b messages)) [
        | inl broken ↦ absurd (ground (arith, rw broken at (rw (e, web_socket_loop) at h)))
        | inr ((ps, l), more) ↦
            let opened = rw more at (rw (e, web_socket_loop) at h) in
            let all : packets ≡ p ∷ ps = ground arith in
            let rest : left ≡ l = ground arith in
            rw (all, rest)
              (append_assoc p (concat ps) l
                ∙ (ap (λ (bs : Bytes). p ++ bs) (web_socket_loop-concat messages b ps l more)
                    ∙ (sym (append_assoc p b (concat messages))
                        ∙ (ap (λ (bs : Bytes). bs ++ concat messages) (rw e at content)
                            ∙ append_assoc buffer message (concat messages)))))
      ]
      | inr (inr e) ↦ absurd (ground (arith, rw (e, web_socket_loop) at h))
    ]
