-- ===== src/Profiles.antt =====
-- internal/profiles: the Connection profiles of a user. Profiles.Uri is the link of one profile.
pub mod Uri
pub mod Match
pub mod Values
pub mod Results
pub mod Candidate
pub mod Built
pub mod Fits
pub mod Offers
pub mod Evaluate
pub mod Listed
pub mod Total
pub mod Distinct
