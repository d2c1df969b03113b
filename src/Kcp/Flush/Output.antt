-- ===== src/Kcp/Flush/Output.antt =====
-- crates/raynet-core/src/kcp/kcp.rs: the acknowledgements and probes that `flush`
-- puts out.
use raynet.Prelude.{
  ℕ, ◌+◌, ◌≡◌, refl, sym, ap, ◌∙◌, Bool, true, false, not, List, [], ◌∷◌, ◌++◌, append_assoc,
  append-nil, length, ltb, ◌==◌, if◌then◌else◌, bit_and, Bool-cases, inl, inr, arith,
}
use raynet.Kcp.Types.{Kcp, KcpSegment, kcp_overhead, ask_send, ask_tell, cmd_wask, cmd_wins}
use raynet.Kcp.Codec.{ByteOrder, encode}
use raynet.Kcp.Flush.{
  next_wait, probe_wnd_size, emit_output, make_room, ack_template, put_segment, flush_acks,
  flush_ack, flush_probe_command, flush_probe_commands, flush_control,
}

-- The datagrams that are put out, one behind the other.
abbrev pub joined : List (List ℕ) → List ℕ
joined [] = []
joined (datagram ∷ output) = datagram ++ joined output

joined-append : (xs ys : List (List ℕ)) → joined (xs ++ ys) ≡ joined xs ++ joined ys
joined-append [] ys = refl
joined-append (x ∷ xs) ys =
    ap (◌++◌ x) (joined-append xs ys) ∙ sym (append_assoc x (joined xs) (joined ys))

-- What is put out so far, and what waits in the buffer.
abbrev pub all_bytes : Kcp → List ℕ
all_bytes k = joined k.output ++ k.buf

-- The fields that the way out changes.
abbrev pub with_output : Kcp → Kcp → Kcp
with_output k other = record k { buf = other.buf; output = other.output }

-- The fields that acknowledgements and probes change besides.
abbrev pub with_control : Kcp → Kcp → Kcp
with_control k other = record k {
  buf = other.buf;
  output = other.output;
  acklist = other.acklist;
  probe = other.probe;
  ts_probe = other.ts_probe;
  probe_wait = other.probe_wait;
}

-- A step that puts bytes out, and changes nothing else.
pub record Puts (k : Kcp) (bytes : List ℕ) (k' : Kcp) : Type 0 where
  pub same : k' ≡ with_output k k'
  pub put : all_bytes k' ≡ all_bytes k ++ bytes

pub Puts-trans : (a b c : Kcp) (xs ys : List ℕ) → Puts a xs b → Puts b ys c → Puts a (xs ++ ys) c
Puts-trans a b c xs ys p q = record {
  same = q.same ∙ ap (λ (k : Kcp). with_output k c) p.same;
  put = q.put ∙ ap (λ (before : List ℕ). before ++ ys) p.put ∙ append_assoc (all_bytes a) xs ys;
}

pub nothing_put : (k : Kcp) → Puts k [] k
nothing_put k = record { same = refl; put = sym (append-nil (all_bytes k)) }

empty : (bytes : List ℕ) → (length bytes == 0) ≡ true → bytes ≡ []
empty [] e = refl
empty (b ∷ bytes) e = absurd (ground (arith, e))

pub emit_output-Puts : (k : Kcp) → Puts k [] (emit_output k) × ((emit_output k).buf ≡ [])
unfolding emit_output
emit_output-Puts k = elim (Bool-cases (length k.buf == 0)) [
  | inl none_there ↦ rw none_there (nothing_put k, empty k.buf none_there)
  | inr full ↦ rw full (
    record {
      same = refl;
      put =
          append-nil (joined (k.output ++ (k.buf ∷ [])))
          ∙ joined-append k.output (k.buf ∷ [])
          ∙ sym (append_assoc (joined k.output) k.buf []);
    },
    refl,
  )
]

make_room-Puts : (k : Kcp) (need : ℕ) → Puts k [] (make_room k need)
unfolding make_room
make_room-Puts k need = elim (Bool-cases (ltb k.mtu (length k.buf + need))) [
  | inl full ↦ rw full (emit_output-Puts k).0
  | inr room ↦ rw room (nothing_put k)
]

module _ (order : ByteOrder) where
  pub put_segment-Puts :
      (k : Kcp) (seg : KcpSegment) → Puts k (encode order seg) (put_segment order k seg)
  unfolding put_segment
  put_segment-Puts k seg =
      let roomy = make_room k (kcp_overhead + length seg.bytes) in
      let added : Puts roomy (encode order seg)
          (record roomy { buf = roomy.buf ++ encode order seg }) =
        record {
          same = refl;
          put = sym (append_assoc (joined roomy.output) roomy.buf (encode order seg));
        } in
      Puts-trans k roomy _ [] (encode order seg)
        (make_room-Puts k (kcp_overhead + length seg.bytes)) added

  -- The acknowledgements that wait, each in a segment of the template.
  abbrev pub acks_due : KcpSegment → List (ℕ × ℕ) → List ℕ
  acks_due template [] = []
  acks_due template ((sn, ts) ∷ acks) =
      encode order (record template { sn = sn; ts = ts }) ++ acks_due template acks

  -- The template, with the numbers of the last acknowledgement.
  abbrev pub last_ack : KcpSegment → List (ℕ × ℕ) → KcpSegment
  last_ack template [] = template
  last_ack template ((sn, ts) ∷ acks) = last_ack (record template { sn = sn; ts = ts }) acks

  acks_due-template :
      (template : KcpSegment) (sn ts : ℕ) (acks : List (ℕ × ℕ))
      → acks_due (record template { sn = sn; ts = ts }) acks ≡ acks_due template acks
  acks_due-template template sn ts [] = refl
  acks_due-template template sn ts ((sn', ts') ∷ acks) =
      ap (◌++◌ (encode order (record template { sn = sn'; ts = ts' })))
        (acks_due-template template sn ts acks)

  flush_acks-Puts :
      (k : Kcp) (acks : List (ℕ × ℕ)) (template : KcpSegment)
      → Puts k (acks_due template acks) (flush_acks order k acks template).0
        × ((flush_acks order k acks template).1 ≡ last_ack template acks)
  unfolding flush_acks
  flush_acks-Puts k [] template = (nothing_put k, refl)
  flush_acks-Puts k ((sn, ts) ∷ acks) template =
      let seg = record template { sn = sn; ts = ts } in
      let (rest, last) = flush_acks-Puts (put_segment order k seg) acks seg in
      (
        Puts-trans k (put_segment order k seg) _ (encode order seg) (acks_due template acks)
            (put_segment-Puts k seg) (rw (acks_due-template template sn ts acks) at rest),
        last,
      )

  -- The probes that the flags ask for.
  abbrev pub probes_due : ℕ → KcpSegment → List ℕ
  probes_due probe seg =
      (if not (bit_and probe ask_send == 0)
        then encode order (record seg { cmd = cmd_wask })
        else [])
      ++ (if not (bit_and probe ask_tell == 0)
          then encode order (record seg { cmd = cmd_wins })
          else [])

  asked-Puts :
      (asked : Bool) (cmd : ℕ) (k : Kcp) (seg : KcpSegment)
      → Puts k
          (if asked then encode order (record seg { cmd = cmd }) else [])
          (if asked then flush_probe_command order k cmd seg else k)
  unfolding flush_probe_command
  asked-Puts false cmd k seg = nothing_put k
  asked-Puts true cmd k seg = put_segment-Puts k (record seg { cmd = cmd })

  -- What is due before the data: the acknowledgements and the probes.
  abbrev pub control_due : Kcp → List ℕ
  control_due k =
      acks_due (ack_template k) k.acklist
      ++ probes_due (probe_wnd_size k).probe (last_ack (ack_template k) k.acklist)

  -- The test of the remote window has nothing to do with the way out.
  probe_wnd_size-output :
      (k other : Kcp) (acklist : List (ℕ × ℕ))
      → probe_wnd_size (record k { buf = other.buf; output = other.output; acklist = acklist })
        ≡ record (probe_wnd_size k) { buf = other.buf; output = other.output; acklist = acklist }
  unfolding probe_wnd_size next_wait
  probe_wnd_size-output k other acklist = ground arith

  probe_wnd_size-control : (k : Kcp) → probe_wnd_size k ≡ with_control k (probe_wnd_size k)
  unfolding probe_wnd_size
  probe_wnd_size-control k = ground arith

  -- What differs from `k` in those fields alone has them from itself.
  controlled : (k x other : Kcp) → x ≡ with_control k other → x ≡ with_control k x
  controlled k x other e = e ∙ sym (ap (λ (y : Kcp). with_control k y) e)

  flush_probe_commands-Puts :
      (k : Kcp) (seg : KcpSegment)
      → let k' = flush_probe_commands order k seg in
        (k' ≡ record (with_output k k') { probe = 0 })
        × (all_bytes k' ≡ all_bytes k ++ probes_due k.probe seg)
  unfolding flush_probe_commands
  flush_probe_commands-Puts k seg =
      let ask = not (bit_and k.probe ask_send == 0) in
      let asked = if ask then flush_probe_command order k cmd_wask seg else k in
      let p = asked-Puts ask cmd_wask k seg in
      let same_probe : asked.probe ≡ k.probe = ap (λ (x : Kcp). x.probe) p.same in
      let tell = not (bit_and k.probe ask_tell == 0) in
      let both = Puts-trans k asked _ _ _ p (asked-Puts tell cmd_wins asked seg) in
      rw same_probe (ap (λ (x : Kcp). record x { probe = 0 }) both.same, both.put)

  pub flush_control-Puts :
      (k : Kcp)
      → (flush_control order k ≡ with_control k (flush_control order k))
        × (all_bytes (flush_control order k) ≡ all_bytes k ++ control_due k)
  unfolding flush_control flush_ack
  flush_control-Puts k =
      let template = ack_template k in
      let acked = (flush_acks order k k.acklist template).0 in
      let last = (flush_acks order k k.acklist template).1 in
      let (acks, ended) = flush_acks-Puts k k.acklist template in
      let tested_state = probe_wnd_size (record acked { acklist = [] }) in
      let tested : tested_state
          ≡ record (probe_wnd_size k) { buf = acked.buf; output = acked.output; acklist = [] } =
        ap (λ (x : Kcp). probe_wnd_size (record x { acklist = [] })) acks.same
        ∙ probe_wnd_size-output k acked [] in
      let (same, put) = flush_probe_commands-Puts tested_state last in
      let probe = (probe_wnd_size k).probe in
      let tested_control : tested_state ≡ with_control k tested_state =
        controlled k tested_state
          (record (probe_wnd_size k) { buf = acked.buf; output = acked.output; acklist = [] })
          (tested
            ∙ ap (λ (x : Kcp). record x { buf = acked.buf; output = acked.output; acklist = [] })
                (probe_wnd_size-control k)) in
      let final = flush_probe_commands order tested_state last in
      (
        controlled k final (record (with_output tested_state final) { probe = 0 })
            (same ∙ ap (λ (x : Kcp). record (with_output x final) { probe = 0 }) tested_control),
        put
            ∙ ap (λ (x : Kcp). all_bytes x ++ probes_due x.probe last) tested
            ∙ ap (λ (before : List ℕ). before ++ probes_due probe last) acks.put
            ∙ append_assoc (all_bytes k) (acks_due template k.acklist) (probes_due probe last)
            ∙ ap
                (λ (seg : KcpSegment).
                  all_bytes k ++ (acks_due template k.acklist ++ probes_due probe seg))
                ended,
      )
