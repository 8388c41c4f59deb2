-- ===== src/Select/Lock.antt =====
-- rxThread: a receptor joins one stream, and hands on the packets of that one only.
use vban_utils.Prelude.{
  ℕ, zero, suc, ◌≡◌, ◌≢◌, inl, inr, refl, ap, ◌∙◌, Bool, true, false, ◌&&◌, List, [], ◌∷◌, arith,
  ◌==◌, Bool-cases, get_or, replicate, if◌then◌else◌,
}
use vban_utils.Select.{
  RxSource, Datagram, same_bytes, strncpy, is_stream, select_udp, select_run, stream_name_size,
}

-- Both the address and the name are known.
pub record IsLocked (s : RxSource) : Type 0 where
  pub addressed : s.iprx ≢ 0
  pub named : get_or s.rx_streamname 0 0 ≢ 0

-- The packets of one stream, and every packet that is not of a stream.
abbrev pub admits : ℕ → List ℕ → Datagram → Bool
admits ip name d =
    if is_stream d.header then (ip == d.ip_in) && same_bytes name d.header.streamname else true

abbrev pub filter {ℓ} : {A : Type ℓ} → (A → Bool) → List A → List A
filter p [] = []
filter p (x ∷ xs) = if p x then x ∷ filter p xs else filter p xs

select_locked :
    (s : RxSource) (d : Datagram)
    → IsLocked s
    → ◌≡◌ {A = RxSource × Bool}
        (select_udp s d)
        (record s { ansport = d.port_in }, admits s.iprx s.rx_streamname d)
unfolding select_udp
select_locked s d h =
    let a : (s.iprx == 0) ≡ false = ground (arith, h.addressed) in
    let n : (get_or s.rx_streamname 0 0 == 0) ≡ false = ground (arith, h.named) in
    rw (a, n)
      (chosen (is_stream d.header)
        ((s.iprx == d.ip_in) && same_bytes s.rx_streamname d.header.streamname) (s.iprx == d.ip_in)
        (same_bytes s.rx_streamname d.header.streamname) (record s { ansport = d.port_in }))
  where
    chosen :
        (stream both address name : Bool) (t : RxSource)
        → ◌≡◌ {A = RxSource × Bool}
            (if stream
              then if both
                then (t, true)
                else if false && false
                then (
                  record t {
                    iprx = d.ip_in;
                    rx_streamname = strncpy stream_name_size d.header.streamname;
                  },
                  false,
                )
                else if address && false
                then (
                  record t { rx_streamname = strncpy stream_name_size d.header.streamname },
                  false,
                )
                else if false && name
                then (record t { iprx = d.ip_in }, false)
                else (t, false)
              else (t, true))
            (t, if stream then both else true)
    chosen stream both address name t = ground arith

-- Once a receptor knows the address and the name of its stream, it keeps them, and hands on, in
-- order, exactly the packets of that stream and those that are of no stream.
pub select_run_locked :
    (s : RxSource) (ds : List Datagram)
    → IsLocked s
    → let (t, handled) = select_run s ds in
      (handled ≡ filter (admits s.iprx s.rx_streamname) ds)
      × (t.iprx ≡ s.iprx)
      × (t.rx_streamname ≡ s.rx_streamname)
unfolding select_run
select_run_locked s [] h = (refl, refl, refl)
select_run_locked s (d ∷ ds) h =
    let (e, ip, name) =
      select_run_locked (record s { ansport = d.port_in }) ds
        (record { addressed = h.addressed; named = h.named }) in
    rw (select_locked s d h)
      (ap (λ handled. if admits s.iprx s.rx_streamname d then d ∷ handled else handled) e, ip, name)

-- A receptor with neither address nor name.
pub record IsFresh (s : RxSource) : Type 0 where
  pub no_address : s.iprx ≡ 0
  pub no_name : get_or s.rx_streamname 0 0 ≡ 0

-- A packet of a stream that has a name.
pub record IsOffer (d : Datagram) : Type 0 where
  pub stream : is_stream d.header ≡ true
  pub from : d.ip_in ≢ 0
  pub named : get_or d.header.streamname 0 0 ≢ 0

abbrev pub copied_name : Datagram → List ℕ
copied_name d = strncpy stream_name_size d.header.streamname

-- The state behind the first packet.
abbrev joined : Datagram → RxSource
joined d = record { iprx = d.ip_in; rx_streamname = copied_name d; ansport = d.port_in }

select_fresh :
    (s : RxSource) (d : Datagram)
    → IsFresh s
    → IsOffer d
    → ◌≡◌ {A = RxSource × Bool} (select_udp s d) (joined d, false)
unfolding select_udp
select_fresh s d f o =
    let ne : (0 == d.ip_in) ≡ false = ground (arith, o.from) in
    rw (f.no_address, f.no_name, o.stream, ne) refl

first-strncpy : (name : List ℕ) → get_or (strncpy stream_name_size name) 0 0 ≡ get_or name 0 0
unfolding strncpy
first-strncpy [] = refl
first-strncpy (zero ∷ name) = refl
first-strncpy (suc c ∷ name) = refl

joined-IsLocked : (d : Datagram) → IsOffer d → IsLocked (joined d)
joined-IsLocked d o = record {
  addressed = o.from;
  named = rw (first-strncpy d.header.streamname) o.named;
}

-- A receptor with neither address nor name takes both from the first packet of a stream, drops
-- that packet, and hands on exactly what follows from the same address with the name as it was
-- copied, or is of no stream.
pub select_run_fresh :
    (s : RxSource) (d : Datagram) (ds : List Datagram)
    → IsFresh s
    → IsOffer d
    → let (t, handled) = select_run s (d ∷ ds) in
      (handled ≡ filter (admits d.ip_in (copied_name d)) ds)
      × (t.iprx ≡ d.ip_in)
      × (t.rx_streamname ≡ copied_name d)
unfolding select_run
select_run_fresh s d ds f o =
    rw (select_fresh s d f o) (select_run_locked (joined d) ds (joined-IsLocked d o))

filter_all {ℓ} :
    {A : Type ℓ} (p : A → Bool) (n : ℕ) (x : A)
    → p x ≡ true
    → filter p (replicate n x) ≡ replicate n x
filter_all p zero x e = refl
filter_all p (suc n) x e = rw e (ap (◌∷◌ x) (filter_all p n x e))

filter_none {ℓ} :
    {A : Type ℓ} (p : A → Bool) (n : ℕ) (x : A) → p x ≡ false → filter p (replicate n x) ≡ []
filter_none p zero x e = refl
filter_none p (suc n) x e = rw e (filter_none p n x e)

refl-== : (a : ℕ) → (a == a) ≡ true
refl-== a = ground arith

-- Of a stream that sends the same header again and again, a receptor with neither address nor
-- name hands on every packet but the first when the name is filled up with zeros, and none at all
-- when other bytes stand behind the end of the name: the name is copied as a string and compared
-- as an array.
pub select_run_repeated :
    (s : RxSource) (d : Datagram) (n : ℕ)
    → IsFresh s
    → IsOffer d
    → (select_run s (d ∷ replicate n d)).1
      ≡ (if same_bytes (copied_name d) d.header.streamname then replicate n d else [])
select_run_repeated s d n f o =
    (select_run_fresh s d (replicate n d) f o).0
    ∙ elim (Bool-cases (same_bytes (copied_name d) d.header.streamname)) [
      | inl e ↦
          rw e (
            filter_all (admits d.ip_in (copied_name d)) n d
              (rw (o.stream, refl-== d.ip_in, e) refl))
      | inr e ↦ rw e (
          filter_none (admits d.ip_in (copied_name d)) n d (rw (o.stream, refl-== d.ip_in, e) refl))
    ]
