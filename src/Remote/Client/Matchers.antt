-- ===== src/Remote/Client/Matchers.antt =====
-- labelMatchersToProto and matrixFromHttp of storage/remote/client.go.
use promeproxy.Common.{String, ◌≡◌, refl, List, [], ◌∷◌}
use promeproxy.Model.{SampleStream}
use promeproxy.Metric.Matcher.{
  MatchType, equal, not_equal, regex_match, regex_no_match, LabelMatcher,
}
use promeproxy.Remote.Client.{TimeSeries}

-- The protocol's MatchType and LabelMatcher.
pub data WireType : Type 0 where
  wire_equal wire_not_equal wire_regex_match wire_regex_no_match : WireType

pub record WireMatcher : Type 0 where
  pub type : WireType
  pub name : String
  pub value : String

-- the switch of labelMatchersToProto, which has a case for every type
unfoldable pub wire_type : MatchType → WireType
wire_type equal = wire_equal
wire_type not_equal = wire_not_equal
wire_type regex_match = wire_regex_match
wire_type regex_no_match = wire_regex_no_match

-- labelMatchersToProto
unfoldable pub label_matchers_to_proto : {R F : Type 0} → List (LabelMatcher R F) → List WireMatcher
unfolding wire_type
label_matchers_to_proto [] = []
label_matchers_to_proto (m ∷ ms) =
    record { type = wire_type m.type; name = m.name; value = m.value } ∷ label_matchers_to_proto ms

-- matrixFromHttp, which drops what it is given
unfoldable pub matrix_from_http : {V : Type 0} → List (TimeSeries V) → List (SampleStream V)
matrix_from_http series_set = []

-- what a matcher says, without what was compiled from it
abbrev pub said : {R F : Type 0} → List (LabelMatcher R F) → List (MatchType × String × String)
said [] = []
said (m ∷ ms) = (m.type, m.name, m.value) ∷ said ms

-- the type that a wire type stands for
abbrev pub type_of : WireType → MatchType
type_of wire_equal = equal
type_of wire_not_equal = not_equal
type_of wire_regex_match = regex_match
type_of wire_regex_no_match = regex_no_match

abbrev pub read_wire : List WireMatcher → List (MatchType × String × String)
read_wire [] = []
read_wire (m ∷ ms) = (type_of m.type, m.name, m.value) ∷ read_wire ms

type_of-wire_type : (t : MatchType) → type_of (wire_type t) ≡ t
unfolding wire_type
type_of-wire_type equal = refl
type_of-wire_type not_equal = refl
type_of-wire_type regex_match = refl
type_of-wire_type regex_no_match = refl

-- The type, name and value of each matcher can be read from what is sent, in order.
pub read_wire-label_matchers_to_proto :
    {R F : Type 0} (ms : List (LabelMatcher R F)) → read_wire (label_matchers_to_proto ms) ≡ said ms
unfolding label_matchers_to_proto
read_wire-label_matchers_to_proto [] = refl
read_wire-label_matchers_to_proto (m ∷ ms) =
    λ i. (type_of-wire_type m.type i, m.name, m.value) ∷ read_wire-label_matchers_to_proto ms i
