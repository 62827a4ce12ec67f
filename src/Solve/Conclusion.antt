-- ===== src/Solve/Conclusion.antt =====
-- How a search ended (crates/themelios-solve/src/outcome.rs): the conclusions, and the truncations
-- among them.
use themelios.Prelude.{Option, none, some, String}

pub data Conclusion : Type 0 where
  exhausted target budget interrupted : Conclusion

pub data Truncation : Type 0 where
  target budget interrupted : Truncation

-- `Truncation::of`.
abbrev pub truncation_of : Conclusion → Option Truncation
truncation_of Conclusion.exhausted = none
truncation_of Conclusion.target = some Truncation.target
truncation_of Conclusion.budget = some Truncation.budget
truncation_of Conclusion.interrupted = some Truncation.interrupted

-- `From<Truncation> for Conclusion`.
abbrev pub conclusion_of : Truncation → Conclusion
conclusion_of Truncation.target = Conclusion.target
conclusion_of Truncation.budget = Conclusion.budget
conclusion_of Truncation.interrupted = Conclusion.interrupted

-- `Display for Conclusion`.
abbrev pub conclusion_text : Conclusion → String
conclusion_text Conclusion.exhausted = "the search closed the space"
conclusion_text Conclusion.target = "the search met its target"
conclusion_text Conclusion.budget = "the search hit its budget"
conclusion_text Conclusion.interrupted = "the search was interrupted"

-- `Display for Truncation`.
abbrev pub truncation_text : Truncation → String
truncation_text t = conclusion_text (conclusion_of t)
