-- ===== src/OftSearch/Required.antt =====
-- `estimate_oft_required_send_amount` of crates/lib/src/swap/reverse.rs on a native-mesh route.
use boltz_client.Prelude.{
  ℕ, ◌<◌, ◌≡◌, refl, String, some, Bool, false, ◌==◌, if◌then◌else◌, replicate, arith,
}
use boltz_client.Config.{u128_limit}
use boltz_client.Crates.{Bytes}
use boltz_client.Errors.{Result, ok}
use boltz_client.Models.Destinations.{Destination, Bridge, Usdt0Kind, oft_for}
use boltz_client.Calls.{OftSendParam, OftLimit, build_oft_send_param}
use boltz_client.OftQuotes.{oft, oft_route, source_oft, quote_oft, quote_send, u128_or}
use boltz_client.World.{World, Executor}
use boltz_client.World.Action.{M, ask}
use boltz_client.OftSearch.{
  quote_oft_messaging_fee, received_of, send_amount_by_mesh, estimate_oft_required_send_amount,
}
use boltz_client.OftSearch.Least.{
  Steady, Lossy, Least, Gives, Gives-pure, Gives-given, Gives-then, Reachable, search_amount-Least,
}

-- The parameter that the quotes of `a` are asked with.
abbrev pub quote_param : (eid : ℕ) → Bytes → (a least : ℕ) → OftSendParam
quote_param eid extra_options a least =
    build_oft_send_param eid (replicate 32 0) a least extra_options

-- The source OFT answers every quote: of `a` it says that `f a` arrives.
pub record Answering (x : Executor) (source : String) (eid : ℕ) (extra_options : Bytes) (f : ℕ → ℕ)
    : Type 0 where
  pub limit : OftLimit
  pub quote :
      (n a : ℕ)
      → x.outside.quote_oft n source (quote_param eid extra_options a 0)
        ≡ ok (limit, record { amount_sent_ld = a; amount_received_ld = f a })
  pub native_fee : ℕ
  pub lz_token_fee : ℕ
  pub fee :
      (n a : ℕ)
      → x.outside.quote_send n source (quote_param eid extra_options a (f a))
        ≡ ok (record { native_fee = native_fee; lz_token_fee = lz_token_fee })
  pub small_fee : native_fee < u128_limit
  pub small : (a : ℕ) → f a < u128_limit

Gives-ask :
    {A : Type 0} (question : ℕ → Result A) (a : A) (w : World) {P : A → Type 0}
    → ((n : ℕ) → question n ≡ ok a)
    → P a
    → Gives (ask question) w P
unfolding ask
Gives-ask question a w e h = record { value = a; gives = e w.calls; holds = h }

Gives-if_not :
    {A : Type 0} (b : Bool) (m n : M (Result A)) (w : World) {P : A → Type 0}
    → b ≡ false
    → Gives n w P
    → Gives (if b then m else n) w P
Gives-if_not b m n w e g = rw (e) g

u128_or-eq : (reason : String) (n : ℕ) → n < u128_limit → u128_or reason n ≡ ok n
unfolding u128_or
u128_or-eq reason n h = ground arith

module _ (x : Executor) (dest : Destination) (extra_options : Bytes) (source : String) (eid : ℕ)
    (f : ℕ → ℕ) (route : dest.bridge ≡ Bridge.oft Usdt0Kind.native eid)
    (deployed : oft_for x.registry Usdt0Kind.native ≡ some source)
    (answering : Answering x source eid extra_options f) where
  oft_route-eq : oft_route dest.bridge ≡ ok (Usdt0Kind.native, eid)
  unfolding oft_route oft
  oft_route-eq = rw (route) refl

  source_oft-eq : source_oft x.registry Usdt0Kind.native ≡ ok source
  unfolding source_oft
  source_oft-eq = rw (deployed) refl

  Gives-quote_oft :
      (a : ℕ) (w : World)
      → Gives
          (quote_oft x source (quote_param eid extra_options a 0))
          w
          (λ r. r.amount_received_ld ≡ f a)
  unfolding quote_oft
  Gives-quote_oft a w =
      Gives-then
        (Gives-ask _ _ w {P = λ q. q.1.amount_received_ld ≡ f a} (λ n. answering.quote n a) refl)
        (λ q e v. Gives-pure q.1 v e)

  Gives-quote_send :
      (a : ℕ) (w : World)
      → Gives
          (quote_send x source (quote_param eid extra_options a (f a)))
          w
          (λ fee. fee.native_fee < u128_limit)
  unfolding quote_send
  Gives-quote_send a w = Gives-ask _ _ w (λ n. answering.fee n a) answering.small_fee

  Gives-quote_oft_messaging_fee :
      (a : ℕ) (w : World)
      → Gives (quote_oft_messaging_fee x dest a extra_options) w (λ q. q.1 ≡ f a)
  unfolding quote_oft_messaging_fee
  Gives-quote_oft_messaging_fee a w = Gives-given oft_route-eq _ w (
      Gives-given source_oft-eq _ w (
        Gives-then (Gives-quote_oft a w) λ receipt e v. rw (e) (
          Gives-then (Gives-quote_send a v) λ fee small u.
            Gives-given (u128_or-eq _ _ small) _ u
              (Gives-given (u128_or-eq _ _ (answering.small a)) _ u (Gives-pure _ u refl)))))

  received_of-Steady : Steady (received_of x dest extra_options) f
  unfolding received_of
  received_of-Steady = record {
    at = λ a w.
        let g =
          Gives-then {P = λ q. q.1 ≡ f a} (Gives-quote_oft_messaging_fee a w)
            (λ q e v. Gives-pure q.1 v {P = λ n. n ≡ f a} e) in
        rw (← g.holds) g.gives;
  }

  -- On a native-mesh route whose source OFT answers every quote within `u128`, gives more for more and
  -- never more than was sent, the estimate for a positive target ends, with the least amount of which
  -- the target arrives, if the target, doubled at most 32 times within `u128`, is enough.
  pub estimate_oft_required_send_amount-Least :
      Lossy f
      → (target : ℕ) → 0 < target
      → Reachable f target 33 target
      → (w : World)
      → Gives (estimate_oft_required_send_amount x dest target extra_options) w (Least f target)
  unfolding estimate_oft_required_send_amount send_amount_by_mesh
  estimate_oft_required_send_amount-Least lossy target positive reach w =
      Gives-if_not (target == 0) _ _ w (ground arith) (
        Gives-given oft_route-eq (λ r. send_amount_by_mesh x dest target extra_options r.0) w
          (search_amount-Least (received_of x dest extra_options) f received_of-Steady target lossy
            positive reach w))
