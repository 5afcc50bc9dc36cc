-- ===== src/Serializer/Sink/Laws.antt =====
-- CountingSink and StringSink stop at their first failure, and succeed on what fits their limit.
use pjson.Common.{◌≡◌, refl, sym, ap, Bool, true, false, Option, none, some}
use pjson.Serializer.{Command, write, repeat, fail, invalid_utf8, invalid_number}
use pjson.Serializer.Sink.{
  account, counting_apply, counting_ok, Exception, StringSink, string_apply, is_calm, string_ok,
  string_apply_well, unless_thrown,
}
use pjson.Serializer.Write.Refine.{IsRefusal, Keeps, Refuses}

pub counting-Keeps : Keeps counting_apply counting_ok
unfolding counting_apply account
counting-Keeps (write s) c q h = rw h refl
counting-Keeps (repeat ch n) c q h = rw h refl
counting-Keeps fail c q h = ap (λ (b : Bool). record c { valid = b }) (sym h)
counting-Keeps invalid_utf8 c q h = elim q [ ]
counting-Keeps invalid_number c q h = elim q [ ]

pub counting-Refuses : Refuses counting_apply counting_ok
unfolding counting_apply
counting-Refuses (write s) c q h = elim q [ ]
counting-Refuses (repeat ch n) c q h = elim q [ ]
counting-Refuses fail c q h = refl
counting-Refuses invalid_utf8 c q h = refl
counting-Refuses invalid_number c q h = refl

kept :
    (c : Command) (s : StringSink) (o : Option Exception)
    → s.thrown ≡ o
    → is_calm o ≡ false
    → unless_thrown o s (string_apply_well c s) ≡ s
kept c s none e h = cc
kept c s (some x) e h = refl

pub string-Keeps : Keeps string_apply string_ok
unfolding string_apply
string-Keeps c s q h = kept c s (s.thrown) refl h

refused :
    (c : Command) (s : StringSink) (o : Option Exception)
    → IsRefusal c
    → is_calm o ≡ true
    → string_ok (unless_thrown o s (string_apply_well c s)) ≡ false
refused (write t) s none q h = elim q [ ]
refused (repeat ch n) s none q h = elim q [ ]
refused fail s none q h = refl
refused invalid_utf8 s none q h = refl
refused invalid_number s none q h = refl
refused c s (some x) q h = cc

pub string-Refuses : Refuses string_apply string_ok
unfolding string_apply
string-Refuses c s q h = refused c s (s.thrown) q h
