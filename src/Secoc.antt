-- ===== src/Secoc.antt =====
-- update_coordinator/secoc_utils.py: the frames by which updates are requested, and what makes
-- them fresh. Bytes are numbers below 256. AES-CMAC is not in this repository: it is an argument.
pub mod Bytes
pub mod Store
pub mod Codec
pub mod Key
pub mod Can
