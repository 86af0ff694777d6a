-- ===== src/Acs/Final.antt =====
-- acs/acs.go: what later results do to a decision for a member.
use cleisthenes.Base.{◌≡◌, true, false, some, List, lookup, insert, lookup-insert, arith}
use cleisthenes.Base.Go.{final}
use cleisthenes.Binary
use cleisthenes.Binary.{Binary, BinaryState}
use cleisthenes.Member.{Member, member_eq, member_beq_iff}
use cleisthenes.Acs.State.{RbcOps, BbaOps, item, Acs}
use cleisthenes.Acs.Handlers.{agreement_success}
use cleisthenes.Acs.Run.{Event, run}
use cleisthenes.Acs.Rules.{Rules}
use cleisthenes.Acs.Keeps.{run-keeps}

abbrev Agreed : Member → Acs → Type 0
Agreed k s = (item k s.agreement_result).value ≡ true

save_agreement-Agreed :
    (k : Member) (s : Acs) (m : Member) (bin : Binary) {state : BinaryState}
    → lookup m s.agreement_result ≡ some state
    → state.value ≡ false
    → Agreed k s
    → Agreed k (record s { agreement_result = insert m (Binary.set state bin) s.agreement_result })
unfolding item
save_agreement-Agreed k s m bin {state} there fresh h = ground (
  arith,
  lookup-insert m k (Binary.set state bin) s.agreement_result,
  member_beq_iff m k,
  there,
  fresh,
  h,
)

Agreed-Rules : (k : Member) → Rules (Agreed k)
unfolding agreement_success
Agreed-Rules k = record {
  writes = record {
    set_rbc_repo = λ s repo h. h;
    set_bba_repo = λ s repo h. h;
    save_data = λ s m bytes there empty h. h;
    save_agreement = λ s m bin there fresh h. save_agreement-Agreed k s m bin there fresh h;
    set_agreement_chan = λ s c h. h;
    set_agreement_started = λ s started h. h;
    set_stop_flag = λ s h. h;
  };
  send_batch = λ s undone all full one h. h;
}

-- Once an `ACS` has the result One for a member, it keeps it whatever happens, results for that
-- member included.
pub agreed_final :
    (rbc_ops : RbcOps) (bba_ops : BbaOps) (s : Acs) (es : List Event) (k : Member)
    → (item k s.agreement_result).value ≡ true
    → (item k (final (run rbc_ops bba_ops es s)).agreement_result).value ≡ true
agreed_final rbc_ops bba_ops s es k h = run-keeps (Agreed-Rules k) rbc_ops bba_ops es s h
